-- ===== src/Dns/Label.antt =====
-- internal/dns/label.go: the label of a device in the name service, made of the name that is shown.
-- Texts are lists of their characters; those of a label are ASCII, so that a character is a byte
-- there. `strings.ToLower` and `strconv.Itoa` are parameters.
pub mod Valid
pub mod Suffix
use meshp.Prelude.{
  ℕ, ◌+◌, ◌-◌, Bool, true, false, not, ◌&&◌, ◌||◌, List, [], ◌∷◌, ◌++◌, ltb, leb, ◌==◌,
  if◌then◌else◌, length, take,
}

-- The limit of the wire format, maxLabel of message.go.
abbrev pub max_label : ℕ
max_label = 63

abbrev pub hyphen : ℕ
hyphen = 45

-- c >= 'a' && c <= 'z', c >= '0' && c <= '9'
abbrev pub plain : ℕ → Bool
plain c = (leb 97 c && leb c 122) || (leb 48 c && leb c 57)

-- The loop of `ValidLabel` from index `i` of a text of length `n`.
unfoldable pub valid_from : ℕ → ℕ → List ℕ → Bool
valid_from n i [] = true
valid_from n i (c ∷ cs) =
    let rest = valid_from n (i + 1) cs in
    if plain c
    then rest
    else if c == hyphen && (not (i == 0) && not (i == n - 1))
    then rest
    else false

unfoldable pub valid_label : List ℕ → Bool
unfolding valid_from
valid_label s =
    if length s == 0 || ltb max_label (length s) then false else valid_from (length s) 0 s

-- The loop of `Label`, with `lastHyphen`.
unfoldable pub squash : Bool → List ℕ → List ℕ
squash last_hyphen [] = []
squash last_hyphen (r ∷ rs) = elim (plain r) [
  | true ↦ r ∷ squash false rs
  | false ↦ elim last_hyphen [ true ↦ squash true rs | false ↦ hyphen ∷ squash true rs ]
]

-- strings.TrimRight(s, "-")
unfoldable pub trim_right : List ℕ → List ℕ
trim_right [] = []
trim_right (c ∷ cs) = elim (trim_right cs) [
  | [] ↦ if c == hyphen then [] else c ∷ []
  | d ∷ ds ↦ c ∷ d ∷ ds
]

-- strings.TrimLeft(s, "-")
unfoldable pub trim_left : List ℕ → List ℕ
trim_left [] = []
trim_left (c ∷ cs) = let rest = trim_left cs in if c == hyphen then rest else c ∷ cs

unfoldable pub label : (List ℕ → List ℕ) → List ℕ → List ℕ
unfolding squash trim_right trim_left
label to_lower display =
    let out = trim_right (trim_left (squash true (to_lower display))) in
    if ltb max_label (length out) then trim_right (take max_label out) else out

unfoldable pub suffixed : (ℕ → List ℕ) → List ℕ → ℕ → List ℕ
unfolding trim_right
suffixed itoa base n =
    let suffix = hyphen ∷ itoa n in
    if leb (length base + length suffix) max_label
    then base ++ suffix
    else trim_right (take (max_label - length suffix) base) ++ suffix
