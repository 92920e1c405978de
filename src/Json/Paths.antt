-- ===== src/Json/Paths.antt =====
-- The paths of the builder, read back segment by segment.
use mathlib.Core.List.{append_assoc}
use vsqlite.Base.{
  ℕ, zero, suc, ◌<◌, ◌≡◌, refl, ap, sym, ◌∙◌, arith, Bool, true, false, ◌||◌, Text, List, [], ◌∷◌,
  ◌++◌, Option, none, some, ◌==◌, Bool-cases, inl, inr, if◌then◌else◌, to_decimal, read_decimal,
  length, length-append, append_nil, digits_before-append, read_decimal-digits_before,
  digits_before,
}
use vsqlite.Json.{any_special, needs_quoted_key, quote_rest, quote_key, root, key, index}

-- A call of the builder.
pub data Segment : Type 0 where
  member : Text → Segment
  element : ℕ → Segment

abbrev pub append_segment : Text → Segment → Text
append_segment path (Segment.member k) = key path k
append_segment path (Segment.element i) = index path i

-- The builder after its calls, in their order.
unfoldable pub build_from : Text → List Segment → Text
build_from path [] = path
build_from path (s ∷ segs) = build_from (append_segment path s) segs

unfoldable pub build : List Segment → Text
unfolding build_from
build segs = build_from root segs

abbrev pub separates : ℕ → Bool
separates c = c == b'.' || c == b'['

-- A key without quotes goes up to the next full stop or bracket, and is not empty.
unfoldable pub read_plain : Text → Text × Text
read_plain [] = ([], [])
read_plain (c ∷ s) =
    let (k, rest) = read_plain s in if separates c then ([], c ∷ s) else (c ∷ k, rest)

abbrev pub not_empty : Text × Text → Option (Text × Text)
not_empty ([], rest) = none
not_empty (c ∷ k, rest) = some (c ∷ k, rest)

abbrev pub longer : ℕ → Option (Text × Text) → Option (Text × Text)
longer c none = none
longer c (some (k, rest)) = some (c ∷ k, rest)

-- A key in quotes goes up to the next quote, which must be there.
unfoldable pub read_quoted : Text → Option (Text × Text)
read_quoted [] = none
read_quoted (c ∷ s) =
    let more = longer c (read_quoted s) in if c == b'"' then some ([], s) else more

abbrev pub read_member : Text → Option (Text × Text)
read_member [] = none
read_member (c ∷ s) = if c == b'"' then read_quoted s else not_empty (read_plain (c ∷ s))

-- Whether a bracket closes, and what follows it.
abbrev pub is_closed : Text → Bool
is_closed [] = false
is_closed (c ∷ s) = c == b']'

abbrev pub after_bracket : Text → Text
after_bracket [] = []
after_bracket (c ∷ s) = s

abbrev pub prepend : Segment → Option (List Segment) → Option (List Segment)
prepend s none = none
prepend s (some segs) = some (s ∷ segs)

-- Each segment takes at least one byte, so the length of the text is fuel enough.
unfoldable pub read_segments : ℕ → Text → Option (List Segment)
read_segments fuel [] = some []
read_segments zero (c ∷ s) = none
read_segments (suc fuel) (c ∷ s) =
    let keyed : Option (List Segment) = elim (read_member s) [
      | none ↦ none
      | some (k, after) ↦ prepend (Segment.member k) (read_segments fuel after)
    ] in
    let (i, close) = read_decimal s 0 in
    let more = prepend (Segment.element i) (read_segments fuel (after_bracket close)) in
    let indexed = if is_closed close then more else none in
    if c == b'.' then keyed else if c == b'[' then indexed else none

unfoldable pub read_path : Text → Option (List Segment)
unfolding read_segments
read_path [] = none
read_path (c ∷ s) = if c == b'$' then read_segments (length s) s else none

-- The text of one segment.
abbrev segment_text : Segment → Text
segment_text (Segment.member k) = b'.' ∷ (if needs_quoted_key k then quote_key k else k)
segment_text (Segment.element i) = b'[' ∷ (to_decimal i ++ (b']' ∷ []))

abbrev segments_text : List Segment → Text
segments_text [] = []
segments_text (s ∷ segs) = segment_text s ++ segments_text segs

-- A text that no segment can begin in the middle of: it is empty, or begins a segment.
abbrev starts_segment : Text → Bool
starts_segment [] = true
starts_segment (c ∷ s) = c == b'.' || c == b'['

segments_text-starts : (segs : List Segment) → starts_segment (segments_text segs) ≡ true
segments_text-starts [] = refl
segments_text-starts (Segment.member k ∷ segs) = refl
segments_text-starts (Segment.element i ∷ segs) = refl

append_segment_lem : (path : Text) (s : Segment) → append_segment path s ≡ path ++ segment_text s
unfolding key index
append_segment_lem path (Segment.member k) = refl
append_segment_lem path (Segment.element i) = simp append_assoc

build_from_lem :
    (path : Text) (segs : List Segment) → build_from path segs ≡ path ++ segments_text segs
unfolding build_from
build_from_lem path [] = sym (append_nil path)
build_from_lem path (s ∷ segs) =
    build_from_lem (append_segment path s) segs
    ∙ ap (λ p. p ++ segments_text segs) (append_segment_lem path s)
    ∙ append_assoc path (segment_text s) (segments_text segs)

abbrev pub has_quote : Text → Bool
has_quote [] = false
has_quote (c ∷ s) = c == b'"' || has_quote s

read_plain_lem :
    (k rest : Text)
    → any_special k ≡ false
    → starts_segment rest ≡ true
    → read_plain (k ++ rest) ≡ (k, rest)
unfolding read_plain
read_plain_lem [] [] p q = refl
read_plain_lem [] (c ∷ s) p q = ground arith
read_plain_lem (c ∷ k) rest p q = ground (arith, read_plain_lem k rest)

any_special-has_quote : (k : Text) → any_special k ≡ false → has_quote k ≡ false
any_special-has_quote [] p = refl
any_special-has_quote (c ∷ k) p = ground (arith, any_special-has_quote k)

read_quoted_lem :
    (k rest : Text) → has_quote k ≡ false → read_quoted (quote_rest k ++ rest) ≡ some (k, rest)
unfolding read_quoted quote_rest
read_quoted_lem [] rest q = refl
read_quoted_lem (c ∷ k) rest q = ground (arith, read_quoted_lem k rest)

-- The first quote of a key ends it, and the second of the two that stand for it follows.
read_quoted-cut :
    (k rest : Text)
    → has_quote k ≡ true
    → (before after : Text) × (read_quoted (quote_rest k ++ rest) ≡ some (before, b'"' ∷ after))
unfolding read_quoted quote_rest
read_quoted-cut [] rest q = absurd (ground arith)
read_quoted-cut (c ∷ k) rest q = elim (Bool-cases (c == b'"')) [
  | inl e ↦ ([], quote_rest k ++ rest, ground (arith, e))
  | inr e ↦
      let (before, after, r) = read_quoted-cut k rest (ground (arith, e)) in
      (c ∷ before, after, ground (arith, e, r))
]

abbrev member_text : Text → Text
member_text k = if needs_quoted_key k then quote_key k else k

read_member_lem :
    (k rest : Text)
    → has_quote k ≡ false
    → starts_segment rest ≡ true
    → read_member (member_text k ++ rest) ≡ some (k, rest)
unfolding needs_quoted_key quote_key
read_member_lem [] rest n q = read_quoted_lem [] rest n
read_member_lem (c ∷ k) rest n q =
    ground (arith, read_quoted_lem (c ∷ k) rest, read_plain_lem (c ∷ k) rest)

read_member-cut :
    (k rest : Text)
    → has_quote k ≡ true
    → (before after : Text) × (read_member (member_text k ++ rest) ≡ some (before, b'"' ∷ after))
unfolding needs_quoted_key quote_key
read_member-cut [] rest q = absurd (ground arith)
read_member-cut (c ∷ k) rest q =
    let (before, after, r) = read_quoted-cut (c ∷ k) rest q in
    (before, after, ground (arith, r, any_special-has_quote (c ∷ k)))

read_index_lem :
    (i : ℕ) (rest : Text)
    → read_decimal ((to_decimal i ++ (b']' ∷ [])) ++ rest) 0 ≡ (i, b']' ∷ rest)
unfolding to_decimal read_decimal
read_index_lem i rest =
    let digits = digits_before (suc i) i [] in
    ap (λ s. read_decimal s 0) (append_assoc digits (b']' ∷ []) rest)
    ∙ ap (λ s. read_decimal s 0) (digits_before-append (suc i) i [] (b']' ∷ rest))
    ∙ read_decimal-digits_before (suc i) i (b']' ∷ rest) (omega arith)

-- The keys of which one has a quote.
abbrev pub any_quote : List Segment → Bool
any_quote [] = false
any_quote (Segment.member k ∷ segs) = has_quote k || any_quote segs
any_quote (Segment.element i ∷ segs) = any_quote segs

-- The keys and indices that SQLite takes as they stand: no key has a backslash, which begins an
-- escape sequence in the later versions, or a zero, which ends a text, and no index has more than 32
-- bits.
abbrev pub has_special_byte : Text → Bool
has_special_byte [] = false
has_special_byte (c ∷ s) = c == 92 || c == 0 || has_special_byte s

abbrev pub ArePlain : List Segment → Type 0
ArePlain [] = Unit {0}
ArePlain (Segment.member k ∷ segs) = (has_special_byte k ≡ false) × ArePlain segs
ArePlain (Segment.element i ∷ segs) = (i < 4294967296) × ArePlain segs

-- No segment begins with a quote.
read_segments-quote : (fuel : ℕ) (s : Text) → read_segments fuel (b'"' ∷ s) ≡ none
unfolding read_segments
read_segments-quote zero s = refl
read_segments-quote (suc fuel) s = refl

read_segments_lem :
    (fuel : ℕ) (segs : List Segment)
    → length (segments_text segs) < suc fuel
    → read_segments fuel (segments_text segs) ≡ (if any_quote segs then none else some segs)
unfolding read_segments
read_segments_lem fuel [] h = refl
read_segments_lem zero (Segment.member k ∷ segs) h = absurd (omega arith)
read_segments_lem zero (Segment.element i ∷ segs) h = absurd (omega arith)
read_segments_lem (suc fuel) (Segment.member k ∷ segs) h =
    let rest = segments_text segs in
    elim (Bool-cases (has_quote k)) [
      | inl e ↦
          let (before, after, r) = read_member-cut k rest e in
          ground (arith, e, r, read_segments-quote fuel after)
      | inr e ↦ ground (
        arith,
        e,
        h,
        length-append (member_text k) rest,
        read_member_lem k rest e (segments_text-starts segs),
        read_segments_lem fuel segs,
      )
    ]
read_segments_lem (suc fuel) (Segment.element i ∷ segs) h =
    let rest = segments_text segs in
    ground (
      arith,
      h,
      length-append (to_decimal i ++ (b']' ∷ [])) rest,
      read_index_lem i rest,
      read_segments_lem fuel segs,
    )

-- A path that the builder makes of keys and indices reads back as those in their order, so that two
-- different sequences of calls never give one path, if none of the keys has a double quote. If one
-- has, the path is malformed. The reader is that of the paths of SQLite: an unquoted key ends at the
-- next full stop or bracket, and a quoted key at the next double quote. The theorem says so of keys
-- without a backslash and without a zero, and of indices below 2^32.
pub read_path-build :
    (segs : List Segment)
    → ArePlain segs
    → read_path (build segs) ≡ (if any_quote segs then none else some segs)
unfolding read_path build root
read_path-build segs h =
    ground (arith, build_from_lem root segs, read_segments_lem (length (segments_text segs)) segs)
