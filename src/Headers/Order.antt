-- ===== src/Headers/Order.antt =====
-- utils.go: the order in which header fields are written.
use gsmail.Prelude.{◌≡◌, refl, ap, ◌∙◌, true, false, List, [], ◌∷◌, map, arith}
use mathlib.Core.Path.{fun_ext}
use mathlib.Core.Logic.{∥∥₁_elim}
use mathlib.Core.List.{Perm, Permᴰ}
use native.Mathlib.Nat.{ℕ_set}
use gsmail.Prelude.Bytes.{Bytes}
use gsmail.Text.Search.{Unicode}
use gsmail.Identity.{field}
use gsmail.Headers.{
  before, insert_name, sort_strings, sorted_header_names, value_of, custom_from, custom_headers,
}

before_antisym : (s t : Bytes) → before s t ≡ true → before t s ≡ true → s ≡ t
unfolding before
before_antisym [] [] h k = refl
before_antisym [] (b ∷ t) h k = cc
before_antisym (a ∷ s) [] h k = cc
before_antisym (a ∷ s) (b ∷ t) h k = ground (arith, before_antisym s t)

before_total : (s t : Bytes) → before s t ≡ false → before t s ≡ true
unfolding before
before_total [] t h = cc
before_total (a ∷ s) [] h = refl
before_total (a ∷ s) (b ∷ t) h = ground (arith, before_total s t)

before_trans : (s t r : Bytes) → before s t ≡ true → before t r ≡ true → before s r ≡ true
unfolding before
before_trans [] t r h k = refl
before_trans (a ∷ s) [] r h k = cc
before_trans (a ∷ s) (b ∷ t) [] h k = cc
before_trans (a ∷ s) (b ∷ t) (c ∷ r) h k = ground (arith, before_trans s t r)

insert_name_comm :
    (m n : Bytes) (names : List Bytes)
    → insert_name m (insert_name n names) ≡ insert_name n (insert_name m names)
unfolding insert_name
insert_name_comm m n [] = ground (arith, before_antisym m n, before_total m n)
insert_name_comm m n (k ∷ names) = ground (
  arith,
  before_antisym m n,
  before_total m n,
  before_total m k,
  before_total n k,
  before_trans m n k,
  before_trans n m k,
  before_total n m,
  insert_name_comm m n names,
)

sort_strings-Permᴰ : {xs ys : List Bytes} → Permᴰ xs ys → sort_strings xs ≡ sort_strings ys
unfolding sort_strings
sort_strings-Permᴰ Permᴰ.nil = refl
sort_strings-Permᴰ (Permᴰ.cons {b = b} {l₁ = xs} e p) =
    ap (λ c. insert_name c (sort_strings xs)) e ∙ ap (insert_name b) (sort_strings-Permᴰ p)
sort_strings-Permᴰ (Permᴰ.swap {a = a} {b = b} {a' = a'} {l = l} e f) =
    insert_name_comm a b (sort_strings l)
    ∙ ap (λ c. insert_name c (insert_name a (sort_strings l))) f
    ∙ ap (λ c. insert_name a' (insert_name c (sort_strings l))) e
sort_strings-Permᴰ (Permᴰ.trans p q) = sort_strings-Permᴰ p ∙ sort_strings-Permᴰ q

-- The lists hold the entries of one map, in two orders in which a loop may visit them.
pub record SameMap (h k : List (Bytes × Bytes)) : Type 0 where
  pub names : Perm (map (λ f. f.0) h) (map (λ f. f.0) k)
  pub values : (name : Bytes) → field name h ≡ field name k

pub sorted_header_names-SameMap :
    (h k : List (Bytes × Bytes)) → SameMap h k → sorted_header_names h ≡ sorted_header_names k
unfolding sorted_header_names
sorted_header_names-SameMap h k s = ∥∥₁_elim s.names (hlevel ℕ_set) (λ p. sort_strings-Permᴰ p)

pub look-SameMap :
    (h k : List (Bytes × Bytes))
    → SameMap h k
    → ◌≡◌ {A = Bytes → Bytes} (λ name. value_of (field name h)) (λ name. value_of (field name k))
look-SameMap h k s = fun_ext λ name. ap value_of (s.values name)

-- CustomHeaders does not depend on the order in which the entries of the map are visited.
pub custom_headers-SameMap :
    (u : Unicode) (q_encode : Bytes → Bytes) (h k : List (Bytes × Bytes))
    → SameMap h k
    → custom_headers u q_encode h ≡ custom_headers u q_encode k
unfolding custom_headers
custom_headers-SameMap u q_encode h k s =
    ap (λ look. custom_from u q_encode look (sorted_header_names h) []) (look-SameMap h k s)
    ∙ ap (λ names. custom_from u q_encode (λ name. value_of (field name k)) names [])
        (sorted_header_names-SameMap h k s)
