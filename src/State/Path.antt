-- ===== src/State/Path.antt =====
-- Paths, crates/tcb/src/state.rs: `split_path`, and `str::parse::<usize>` by which a part of a path
-- is taken for an index.
use evorule_tcb.Prelude.{
  ℕ, ◌+◌, ◌-◌, ◌*◌, ◌^◌, String, ◌≡◌, refl, Bool, true, false, not, ◌&&◌, ◌||◌, Option, none, some,
  List, [], ◌∷◌, ◌==◌, ltb, leb, nat_eq, if◌then◌else◌,
}
use Prim.Native.Char.{Char, code}
use Prim.Native.String

abbrev push : String → Char → String
push s c = String.◌++◌ s (String.◌∷◌ c String.[])

-- `if !current.is_empty() { parts.push(take(&mut current)) }`, before the parts that follow.
abbrev flush : String → List String → List String
flush current parts = if current == "" then parts else current ∷ parts

-- A dot outside brackets and each bracket end a part; any other character is pushed.
abbrev ends_part : ℕ → Bool → Bool
ends_part c in_bracket = nat_eq c b'.' && not in_bracket || nat_eq c b'[' || nat_eq c b']'

abbrev next_in_bracket : ℕ → Bool → Bool
next_in_bracket c in_bracket =
    if nat_eq c b'[' then true else if nat_eq c b']' then false else in_bracket

unfoldable pub split_chars : String → String → Bool → List String
split_chars String.[] current in_bracket = flush current []
split_chars (String.◌∷◌ c rest) current in_bracket =
    let ends = ends_part (code c) in_bracket in
    let parts =
      split_chars rest (if ends then "" else push current c)
        (next_in_bracket (code c) in_bracket) in
    if ends then flush current parts else parts

unfoldable pub split_path : String → List String
unfolding split_chars
split_path path = split_chars path "" false

-- The digits of a number, into an accumulator; a `usize` has 64 bits.
unfoldable pub parse_digits : String → ℕ → Option ℕ
parse_digits String.[] n = some n
parse_digits (String.◌∷◌ c rest) n =
    let d = code c - b'0' in
    let m = n * 10 + d in
    let more = parse_digits rest m in
    if leb b'0' (code c) && leb (code c) b'9' && ltb m (2 ^ 64) then more else none

abbrev drop_plus : String → String
drop_plus String.[] = String.[]
drop_plus (String.◌∷◌ c rest) = if nat_eq (code c) b'+' then rest else String.◌∷◌ c rest

-- `part.parse::<usize>().ok()`
unfoldable pub parse_usize : String → Option ℕ
unfolding parse_digits
parse_usize s = let t = drop_plus s in if t == "" then none else parse_digits t 0

split_example : split_path "a.b[0].c.d" ≡ "a" ∷ "b" ∷ "0" ∷ "c" ∷ "d" ∷ []
unfolding split_path
split_example = refl

parse_example :
    (parse_usize "12" ≡ some 12)
    × (parse_usize "+7" ≡ some 7)
    × (parse_usize "x1" ≡ none)
    × (parse_usize "18446744073709551616" ≡ none)
unfolding parse_usize
parse_example = (refl, refl, refl, refl)
