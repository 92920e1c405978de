-- ===== src/Function/Conversions.antt =====
-- What one function of SQL returns, another takes.
use vsqlite.Base.{
  ℕ, ◌<◌, ◌≡◌, ◌≢◌, ◌⊎◌, refl, arith, ℤ, pos, negsuc, Bool, true, false, Text, [], ◌∷◌, Option,
  some, none, ok, length, take, take_of_length-le, int_of_size_small, cast-cast,
}
use vsqlite.Sqlite.{
  sqlite_integer, sqlite_float, sqlite_text, sqlite_blob, sqlite_null, text_of_size,
}
use vsqlite.Result.Conversions.{Width, cast, InRange}
use vsqlite.Function.{SqlValue, Parameter, Datum, Report, convert, write}

-- What SQLite answers about the value that a call reported. A value that is asked for as an int
-- comes as its low 32 bits. Of a text or of bytes SQLite copies as much as the size says; for bytes a negative size is an
-- error. A text without an address is NULL, and so are no bytes, if theirs is null.
abbrev pub Answers : Report → SqlValue → Type 0
Answers Report.result_null v = v.kind ≡ sqlite_null
Answers (Report.result_int64 n) v =
    (v.kind ≡ sqlite_integer) × (v.int64 ≡ n) × (v.int ≡ cast Width.w32 true n)
Answers (Report.result_int n) v = (v.kind ≡ sqlite_integer) × (v.int64 ≡ n) × (v.int ≡ n)
Answers (Report.result_double x) v = (v.kind ≡ sqlite_float) × (v.double ≡ x)
Answers (Report.result_text none n) v = v.kind ≡ sqlite_null
Answers (Report.result_text (some t) n) v =
    (v.kind ≡ sqlite_text) × (v.text ≡ some (text_of_size t n))
Answers (Report.result_blob [] n) v = (v.kind ≡ sqlite_null) ⊎ (v.kind ≡ sqlite_blob)
Answers (Report.result_blob (c ∷ b) (pos n)) v = (v.kind ≡ sqlite_blob) × (v.blob ≡ take n (c ∷ b))
Answers (Report.result_blob (c ∷ b) (negsuc n)) v = ⊥
Answers (Report.result_error m) v = ⊥

abbrev pub AnswersTo : Option Report → SqlValue → Type 0
AnswersTo none v = ⊥
AnswersTo (some r) v = Answers r v

-- The values of the type of a parameter. Bytes are at least one: the vector of no bytes need not
-- have an address. A text or bytes are fewer than 2^31, and a view has an address.
pub data Fits : Parameter → Datum → Type 0 where
  integral :
      (w : Width) (s : Bool) (n : ℤ)
      → InRange w s n
      → Fits (Parameter.integral w s) (Datum.integer n)
  boolean : (b : Bool) → Fits Parameter.boolean (Datum.truth b)
  floating : (x : ℕ) → Fits Parameter.floating (Datum.number x)
  text : (t : Text) → length t < 2147483648 → Fits Parameter.text (Datum.text t)
  view : (t : Text) → length t < 2147483648 → Fits Parameter.view (Datum.text t)
  bytes : (b : Text) → b ≢ [] → length b < 2147483648 → Fits Parameter.bytes (Datum.bytes b)

pub data FitsOptional : Parameter → Datum → Type 0 where
  plain : (p : Parameter) (d : Datum) → Fits p d → FitsOptional p d
  absent : (p : Parameter) → FitsOptional (Parameter.optional p) Datum.absent
  present :
      (p : Parameter) (d : Datum) → Fits p d → FitsOptional (Parameter.optional p) (Datum.present d)

convert-Fits :
    (p : Parameter) (d : Datum) (v : SqlValue)
    → Fits p d
    → AnswersTo (write d) v
    → (convert p v ≡ ok d) × (v.kind ≢ sqlite_null)
unfolding convert write
convert-Fits _ _ v (Fits.integral w s n h) a = (ground (arith, cast-cast w s n h), ground arith)
convert-Fits _ _ v (Fits.boolean true) a = (ground arith, ground arith)
convert-Fits _ _ v (Fits.boolean false) a = (ground arith, ground arith)
convert-Fits _ _ v (Fits.floating x) a = (ground arith, ground arith)
convert-Fits _ _ v (Fits.text t h) a =
    ground (arith, int_of_size_small (length t), take_of_length-le (length t) t)
convert-Fits _ _ v (Fits.view t h) a =
    ground (arith, int_of_size_small (length t), take_of_length-le (length t) t)
convert-Fits _ _ v (Fits.bytes [] q h) a = absurd (q refl)
convert-Fits _ _ v (Fits.bytes (c ∷ b) q h) a =
    ground (arith, int_of_size_small (length (c ∷ b)), take_of_length-le (length (c ∷ b)) (c ∷ b))

-- A value that a callable returns comes back as it was where another callable takes it in the same
-- type, also a number of an unsigned 64-bit type, and an absent or present optional value, if SQLite
-- hands on what it was told, as much of it as it was told. It says so of texts of fewer than 2^31
-- bytes, of views only those that have an address, and of bytes that are at least one and fewer than
-- 2^31.
pub convert-write :
    (p : Parameter) (d : Datum) (v : SqlValue)
    → FitsOptional p d
    → AnswersTo (write d) v
    → convert p v ≡ ok d
unfolding convert write
convert-write _ _ v (FitsOptional.plain p d f) a = (convert-Fits p d v f a).0
convert-write _ _ v (FitsOptional.absent p) a = ground arith
convert-write _ _ v (FitsOptional.present p d f) a = ground (arith, convert-Fits p d v f a)
