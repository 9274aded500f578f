-- ===== src/Audit/Redactor.antt =====
-- audit/redactor.rs, with the registry of schema/mod.rs and schema/secret_fields.rs that says which
-- paths hold a secret.
pub mod Safe
pub mod Checked
pub mod Shallow
use Prim.Native.String.{◌++◌}
use trilithon.Base.{
  ℕ, zero, suc, ◌+◌, ◌^◌, ◌-◌, leb, String, Bool, true, false, not, ◌&&◌, ◌||◌, List, [], ◌∷◌,
  Option, none, some, map, str_eq, ltb, ◌==◌, is_some, if◌then◌else◌, Result, ok, err, ◌>>=◌, ◌>>◌,
  refuse_if,
}
use trilithon.Base.Text.{split, strip_prefix}
use trilithon.Base.Text.Decimal.{to_string}
use trilithon.Model.Json.{
  Value, null, bool, number, string, array, object, Items, nil, cons, Fields, end, field,
}
use trilithon.Model.Pointer.{JsonPointer, root, push, unescape_segment}

-- `TIER_1_SECRET_FIELDS`
abbrev pub tier_1_secret_fields : List String
tier_1_secret_fields =
    "/auth/basic/users/*/password" ∷ "/forward_auth/secret" ∷ "/headers/*/Authorization"
    ∷ "/upstreams/*/auth/api_key" ∷ "/upstreams/*/auth/token" ∷ "/upstreams/*/auth/bearer"
    ∷ "/tls/*/private_key" ∷ "/tls/private_key" ∷ []

abbrev without_slash : String → Option String → String
without_slash pointer none = pointer
without_slash pointer (some rest) = rest

unfoldable pub decoded_segments : String → List String
decoded_segments pointer =
    if str_eq pointer "" || str_eq pointer "/"
    then []
    else map unescape_segment
        (split (λ c. c == b'/') (without_slash pointer (strip_prefix "/" pointer)))

-- Lists of different lengths do not match.
unfoldable pub segments_match : List String → List String → Bool
segments_match [] [] = true
segments_match (pattern_segment ∷ pattern_segments) (segment ∷ segments) =
    (str_eq pattern_segment "*" || str_eq pattern_segment segment)
    && segments_match pattern_segments segments
segments_match _ _ = false

abbrev any_pattern : List String → List String → Bool
any_pattern [] segments = false
any_pattern (pattern_text ∷ patterns) segments =
    segments_match (decoded_segments pattern_text) segments || any_pattern patterns segments

-- `SchemaRegistry::is_secret_field`; a registry is its patterns.
unfoldable pub is_secret_field : List String → JsonPointer → Bool
is_secret_field patterns p = any_pattern patterns (decoded_segments p)

pub data RedactorError : Type 0 where
  plaintext_detected : String → RedactorError
  depth_exceeded : String → RedactorError

pub record RedactionResult : Type 0 where
  pub value : Value
  pub sites : ℕ  -- u32

-- `sites.saturating_add(1)`
abbrev pub saturating_suc : ℕ → ℕ
saturating_suc n = if ltb n (2 ^ 32 - 1) then suc n else 2 ^ 32 - 1

-- `a.saturating_add(b)`
abbrev saturating_add : ℕ → ℕ → ℕ
saturating_add a b = if leb (a + b) (2 ^ 32 - 1) then a + b else 2 ^ 32 - 1

-- `&s[..n.min(s.len())]` of a text in lowercase hexadecimal, one byte a character
unfoldable pub prefix_of : ℕ → String → String
prefix_of zero s = String.[]
prefix_of (suc n) String.[] = String.[]
prefix_of (suc n) (String.◌∷◌ c s) = String.◌∷◌ c (prefix_of n s)

-- The registry's patterns, and the hasher, a trait that adapters implement.
module _ (patterns : List String) (hash_for_value : String → String) where
  unfoldable pub redact_leaf : Value → Value
  redact_leaf (string s) = string ("***" ++ prefix_of 12 (hash_for_value s))
  redact_leaf _ = string "***"

  -- The two tests at the head of `walk`; `inside` is the rest.
  abbrev pub visit :
      Value
      → JsonPointer
      → ℕ
      → ℕ
      → Result RedactorError (Value × ℕ)
      → Result RedactorError (Value × ℕ)
  visit node p sites depth inside =
      if ltb 64 depth
      then err (depth_exceeded p)
      else if is_secret_field patterns p
      then ok (redact_leaf node, saturating_suc sites)
      else inside

  -- `walk` returns the count of sites that it changes.
  unfoldable mutual
    pub walk : Value → JsonPointer → ℕ → ℕ → Result RedactorError (Value × ℕ)
    walk (object fs) p sites depth =
        visit (object fs) p sites depth
          (do (out, n) ← walk_fields fs p sites depth; ok (object out, n))
    walk (array vs) p sites depth =
        visit (array vs) p sites depth
          (do (out, n) ← walk_items vs p 0 sites depth; ok (array out, n))
    walk null p sites depth = visit null p sites depth (ok (null, sites))
    walk (bool b) p sites depth = visit (bool b) p sites depth (ok (bool b, sites))
    walk (number x) p sites depth = visit (number x) p sites depth (ok (number x, sites))
    walk (string s) p sites depth = visit (string s) p sites depth (ok (string s, sites))

    pub walk_fields : Fields → JsonPointer → ℕ → ℕ → Result RedactorError (Fields × ℕ)
    walk_fields end p sites depth = ok (end, sites)
    walk_fields (field key val fs) p sites depth = do
      (w, n) ← walk val (push p key) sites (suc depth)
      (ws, m) ← walk_fields fs p n depth
      ok (field key w ws, m)

    pub walk_items : Items → JsonPointer → ℕ → ℕ → ℕ → Result RedactorError (Items × ℕ)
    walk_items nil p i sites depth = ok (nil, sites)
    walk_items (cons val vs) p i sites depth = do
      (w, n) ← walk val (push p (to_string i)) sites (suc depth)
      (ws, m) ← walk_items vs p (suc i) n depth
      ok (cons w ws, m)

  abbrev pub is_redacted : Value → Bool
  is_redacted (string s) = is_some (strip_prefix "***" s)
  is_redacted _ = false

  abbrev pub inspect :
      Value → JsonPointer → ℕ → Result RedactorError (Unit {0}) → Result RedactorError (Unit {0})
  inspect node p depth inside =
      if ltb 64 depth
      then err (depth_exceeded p)
      else if is_secret_field patterns p
      then refuse_if (not (is_redacted node)) (plaintext_detected p)
      else inside

  unfoldable mutual
    pub self_check : Value → JsonPointer → ℕ → Result RedactorError (Unit {0})
    self_check (object fs) p depth = inspect (object fs) p depth (self_check_fields fs p depth)
    self_check (array vs) p depth = inspect (array vs) p depth (self_check_items vs p 0 depth)
    self_check null p depth = inspect null p depth (ok tt)
    self_check (bool b) p depth = inspect (bool b) p depth (ok tt)
    self_check (number x) p depth = inspect (number x) p depth (ok tt)
    self_check (string s) p depth = inspect (string s) p depth (ok tt)

    pub self_check_fields : Fields → JsonPointer → ℕ → Result RedactorError (Unit {0})
    self_check_fields end p depth = ok tt
    self_check_fields (field key val fs) p depth = do
      self_check val (push p key) (suc depth)
      self_check_fields fs p depth

    pub self_check_items : Items → JsonPointer → ℕ → ℕ → Result RedactorError (Unit {0})
    self_check_items nil p i depth = ok tt
    self_check_items (cons val vs) p i depth = do
      self_check val (push p (to_string i)) (suc depth)
      self_check_items vs p (suc i) depth

  unfoldable pub redact : Value → Result RedactorError RedactionResult
  redact value = do
    (redacted, sites) ← walk value root 0 0
    self_check redacted root 0
    ok (record { value = redacted; sites = sites })

  -- The loop over the members of a diff, with the sum of their sites.
  unfoldable pub redact_members : Fields → ℕ → Result RedactorError (Fields × ℕ)
  redact_members end total_sites = ok (end, total_sites)
  redact_members (field key val fs) total_sites = do
    result ← redact val
    (out, n) ← redact_members fs (saturating_add total_sites result.sites)
    ok (field key result.value out, n)

  abbrev members_result : Result RedactorError (Fields × ℕ) → Result RedactorError RedactionResult
  members_result (ok (out, n)) = ok (record { value = object out; sites = n })
  members_result (err e) = err e

  unfoldable pub redact_diff : Value → Result RedactorError RedactionResult
  redact_diff (object fs) = members_result (redact_members fs 0)
  redact_diff null = redact null
  redact_diff (bool b) = redact (bool b)
  redact_diff (number x) = redact (number x)
  redact_diff (string s) = redact (string s)
  redact_diff (array vs) = redact (array vs)
