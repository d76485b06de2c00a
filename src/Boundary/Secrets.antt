-- ===== src/Boundary/Secrets.antt =====
-- nexus/app/services/secrets/store.py: the secrets of an environment, and an environment without them.
use ai_system_canonical.Prelude.{
  ℕ, String, Bool, Option, none, some, List, [], ◌∷◌, ◌&&◌, not, any, map, drop, length,
  if◌then◌else◌, leb, ◌-◌,
}
use ai_system_canonical.Prelude.Text.{
  codes, codes_eq, is_prefix_of, is_infix_of, is_empty, lower, mem_str,
}

-- an environment, or a dictionary of secrets: distinct keys with their values
abbrev pub Environment : Type 0
Environment = List (String × String)

abbrev pub prefix : String
prefix = "SLICE_SECRET_"

-- `str.upper` on ASCII letters
unfoldable pub upper : ℕ → ℕ
upper c = if leb b'a' c && leb c b'z' then c - 32 else c

-- `_SECRETISH_KEY_MARKERS`
abbrev pub key_markers : List String
key_markers =
    "SECRET" ∷ "TOKEN" ∷ "PASSWORD" ∷ "PASSWD" ∷ "APIKEY" ∷ "API_KEY" ∷ "CREDENTIAL" ∷ "PRIVATE_KEY"
    ∷ "ACCESS_KEY" ∷ []

unfoldable pub key_looks_secret : String → Bool
unfolding upper is_infix_of
key_looks_secret key =
    let ku = map upper (codes key) in any (λ m. is_infix_of (codes m) ku) key_markers

-- a dictionary's entry is replaced where it stands
unfoldable pub put_secret : List ℕ → String → List (List ℕ × String) → List (List ℕ × String)
unfolding codes_eq
put_secret name v [] = (name, v) ∷ []
put_secret name v ((n, w) ∷ rest) =
    if codes_eq n name then (name, v) ∷ rest else (n, w) ∷ put_secret name v rest

-- `__init__`: the names, without the prefix and in lower case, with their values
unfoldable pub secrets_onto : List (List ℕ × String) → Environment → List (List ℕ × String)
unfolding is_prefix_of lower put_secret
secrets_onto known [] = known
secrets_onto known ((k, v) ∷ env) =
    secrets_onto
      (if is_prefix_of (codes prefix) (codes k)
        then put_secret (map lower (drop (length (codes prefix)) (codes k))) v known
        else known)
      env

-- `get`: `none` is SecretNotFound
unfoldable pub secret : String → List (List ℕ × String) → Option String
unfolding codes_eq lower
secret name [] = none
secret name ((n, v) ∷ rest) =
    if codes_eq n (map lower (codes name)) then some v else secret name rest

-- `values`, the empty text left out
unfoldable pub values : List (List ℕ × String) → List String
values [] = []
values ((_, v) ∷ rest) = let vs = values rest in if is_empty v then vs else v ∷ vs

unfoldable pub scrub_env : Environment → List String → Environment
unfolding mem_str
scrub_env [] secrets = []
scrub_env ((k, v) ∷ env) secrets =
    let rest = scrub_env env secrets in
    if not (key_looks_secret k) && not (not (is_empty v) && mem_str v secrets)
    then (k, v) ∷ rest
    else rest
