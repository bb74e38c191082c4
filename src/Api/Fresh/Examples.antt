-- ===== src/Api/Fresh/Examples.antt =====
-- A cache that compares keys part by part, on which the theorems about the hooks are applied.
use clerq.Prelude.{
  ◌≡◌, ◌≢◌, refl, String, str_eq, eq_iff, Bool, true, false, ◌&&◌, [], ◌∷◌, ◌++◌, some, take, ◌==◌,
  ==_refl, arith,
}
use clerq.Api.Base.{
  Scalar, str, encoded, num, nullish, Part, scalar, object, Params, Key, word, QueryClient,
  refreshes,
}
use clerq.Api.Queries.{query_of, policy}
use clerq.Api.Fresh.Writes.{to_case, mutation_of, page_of, write-refreshes_page}
use clerq.Api.Fresh.Cases.{attach}
use clerq.Api.Fresh.Keys.{request-of_key}

abbrev same_scalar : Scalar → Scalar → Bool
same_scalar (str s) (str t) = str_eq s t
same_scalar (encoded s) (encoded t) = str_eq s t
same_scalar (num m) (num n) = m == n
same_scalar nullish nullish = true
same_scalar _ _ = false

abbrev same_params : Params → Params → Bool
same_params [] [] = true
same_params ((j, v) ∷ p) ((k, w) ∷ q) = str_eq j k && same_scalar v w && same_params p q
same_params _ _ = false

abbrev same_part : Part → Part → Bool
same_part (scalar s) (scalar t) = same_scalar s t
same_part (object p) (object q) = same_params p q
same_part _ _ = false

abbrev is_prefix : Key → Key → Bool
is_prefix [] l = true
is_prefix (a ∷ k) [] = false
is_prefix (a ∷ k) (b ∷ l) = same_part a b && is_prefix k l

str_eq_refl : (s : String) → str_eq s s ≡ true
str_eq_refl s = ground (arith, eq_iff s s)

same_scalar_refl : (s : Scalar) → same_scalar s s ≡ true
same_scalar_refl (str s) = str_eq_refl s
same_scalar_refl (encoded s) = str_eq_refl s
same_scalar_refl (num n) = ==_refl n
same_scalar_refl nullish = refl

same_params_refl : (p : Params) → same_params p p ≡ true
same_params_refl [] = refl
same_params_refl ((k, v) ∷ p) =
    ground (arith, str_eq_refl k, same_scalar_refl v, same_params_refl p)

same_part_refl : (p : Part) → same_part p p ≡ true
same_part_refl (scalar s) = same_scalar_refl s
same_part_refl (object p) = same_params_refl p

is_prefix-append : (k more : Key) → is_prefix k (k ++ more) ≡ true
is_prefix-append [] more = refl
is_prefix-append (a ∷ k) more = ground (arith, same_part_refl a, is_prefix-append k more)

is_prefix-word : (a b : String) (k l : Key) → a ≢ b → is_prefix (word a ∷ k) (word b ∷ l) ≡ false
is_prefix-word a b k l n = ground (arith, eq_iff a b)

abbrev cache : QueryClient
cache = record {
  matches = is_prefix;
  matches_prefix = is_prefix-append;
  matches_word = is_prefix-word;
}

request-of_key_example :
    ((query_of (policy (some 3))).path ≡ (query_of (policy (some 3))).path)
    × ((query_of (policy (some 3))).params ≡ (query_of (policy (some 3))).params)
unfolding query_of
request-of_key_example = request-of_key (policy (some 3)) (policy (some 3)) refl refl refl

write-refreshes_page_example :
    (take 2 (mutation_of (to_case (attach 5 5))).path ≡ (page_of (to_case (attach 5 5))).path)
    × (refreshes cache (mutation_of (to_case (attach 5 5))) (page_of (to_case (attach 5 5))) ≡ true)
write-refreshes_page_example = write-refreshes_page cache (to_case (attach 5 5)) refl
