-- ===== src/Api/Base.antt =====
-- What the hooks of frontend/src/api are made of: requests, and the keys under which react-query
-- caches what the queries fetch. react-query itself is the record `QueryClient`.
use clerq.Prelude.{
  ℕ, String, ◌≡◌, ◌≢◌, Bool, true, false, Option, none, some, List, ◌∷◌, ◌++◌, some_of,
}

-- A value in a key, a path or a query string. The cache writes a key as JSON, which does not tell
-- null from undefined: both are `nullish`. `encoded` is text that `encodeURIComponent`
-- puts into a path.
pub data Scalar : Type 0 where
  str encoded : String → Scalar
  num : ℕ → Scalar
  nullish : Scalar

-- the defined fields of a query string
abbrev pub Params : Type 0
Params = List (String × Scalar)

-- one part of a key: a value, or an object of such
pub data Part : Type 0 where
  scalar : Scalar → Part
  object : Params → Part

abbrev pub opt_num : Option ℕ → Scalar
opt_num none = nullish
opt_num (some n) = num n

abbrev pub word : String → Part
word s = scalar (str s)

abbrev pub Key : Type 0
Key = List Part

-- a URL, by the pieces of its template
abbrev pub Url : Type 0
Url = List Scalar

pub data Method : Type 0 where
  get post put patch delete : Method

-- A query: its key, and the GET request that it makes while it is enabled. How often it is made
-- anew, how long an answer is fresh and whether a failure is tried again are not part of it.
pub record Query : Type 0 where
  pub key : Key
  pub path : Url
  pub params : Params
  pub is_enabled : Bool

-- A mutation: its request, and what it does to the cache when the server has answered. Request
-- bodies are not modelled: they are the mutation's arguments under the server's names.
pub record Mutation : Type 0 where
  pub method : Method
  pub path : Url
  pub invalidates : List Key
  pub sets : List Key

-- What the code relies on of react-query's `invalidateQueries`: it fetches the queries anew whose
-- key begins with the given key, and no query whose key begins with another word.
pub record QueryClient : Type 0 where
  pub matches : Key → Key → Bool
  pub matches_prefix : (k more : Key) → matches k (k ++ more) ≡ true
  pub matches_word : (a b : String) (k l : Key) → a ≢ b → matches (word a ∷ k) (word b ∷ l) ≡ false

module _ (client : QueryClient) where
  -- the mutation's success makes the query stale
  abbrev pub refreshes : Mutation → Query → Bool
  refreshes m q = some_of (λ k. client.matches k q.key) m.invalidates
