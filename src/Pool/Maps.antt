-- ===== src/Pool/Maps.antt =====
-- The Go map and channels of smtp/pool.go as association lists, and how often a client stands in them.
use gsmail.Prelude.{
  ℕ, ◌+◌, ◌≡◌, Bool, false, true, Bool-cases, Option-cases, inl, inr, ◌||◌, Option, none, some,
  List, [], ◌∷◌, length, arith, ◌==◌, if◌then◌else◌,
}

-- m[k], a map of clients to times
unfoldable pub get : ℕ → List (ℕ × ℕ) → Option ℕ
get k [] = none
get k ((j, v) ∷ m) = if j == k then some v else get k m

-- delete(m, k)
unfoldable pub without : ℕ → List (ℕ × ℕ) → List (ℕ × ℕ)
without k [] = []
without k ((j, v) ∷ m) = let rest = without k m in if j == k then rest else (j, v) ∷ rest

-- m[k] = v
unfoldable pub insert : ℕ → ℕ → List (ℕ × ℕ) → List (ℕ × ℕ)
unfolding without
insert k v m = (k, v) ∷ without k m

unfoldable pub mem : ℕ → List ℕ → Bool
mem k [] = false
mem k (j ∷ l) = j == k || mem k l

-- append(l[:i], l[i+1:]...) at the first i with l[i] == k
unfoldable pub remove : ℕ → List ℕ → List ℕ
remove k [] = []
remove k (j ∷ l) = if j == k then l else j ∷ remove k l

-- The message of a channel, and the channels without it.
unfoldable pub receive : ℕ → List (ℕ × Option ℕ) → Option (Option ℕ × List (ℕ × Option ℕ))
receive ch [] = none
receive ch ((j, m) ∷ l) =
    let rest = receive ch l in
    if j == ch
    then some (m, l)
    else elim rest [ none ↦ none | some (m', l') ↦ some (m', (j, m) ∷ l') ]

abbrev pub one_if : Bool → ℕ
one_if true = 1
one_if false = 0

unfoldable pub count_keys : ℕ → List (ℕ × ℕ) → ℕ
count_keys c [] = 0
count_keys c ((j, v) ∷ m) = one_if (j == c) + count_keys c m

abbrev pub holds_msg : ℕ → Option ℕ → ℕ
holds_msg c none = 0
holds_msg c (some d) = one_if (d == c)

unfoldable pub count_msgs : ℕ → List (ℕ × Option ℕ) → ℕ
count_msgs c [] = 0
count_msgs c ((j, m) ∷ l) = holds_msg c m + count_msgs c l

pub count_keys-without :
    (c k : ℕ) (m : List (ℕ × ℕ))
    → count_keys c (without k m) ≡ (if k == c then 0 else count_keys c m)
unfolding count_keys without
count_keys-without c k [] = ground arith
count_keys-without c k ((j, v) ∷ m) = ground (arith, count_keys-without c k m)

pub length-without : (k : ℕ) (m : List (ℕ × ℕ)) → length (without k m) + count_keys k m ≡ length m
unfolding count_keys without
length-without k [] = omega arith
length-without k ((j, v) ∷ m) = ground (arith, length-without k m)

pub count_msgs-receive :
    (c ch : ℕ) (l : List (ℕ × Option ℕ)) {m : Option ℕ} {l' : List (ℕ × Option ℕ)}
    → receive ch l ≡ some (m, l')
    → count_msgs c l ≡ holds_msg c m + count_msgs c l'
unfolding count_msgs receive
count_msgs-receive c ch [] h = ground arith
count_msgs-receive c ch ((j, n) ∷ l) {m} {l'} h = elim (Bool-cases (j == ch)) [
  | inl here ↦ ground arith
  | inr there ↦ elim (Option-cases (receive ch l)) [
    | inl none! ↦ ground arith
    | inr ((m1, l1), found) ↦ ground (arith, count_msgs-receive c ch l found)
  ]
]
