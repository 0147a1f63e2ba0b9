-- ===== src/Utils/Secrets/Contents.antt =====
-- What the secret store of kOps holds, and what it promises.
use kubernetes_kops_operator.Prelude.{
  String, Bool, true, false, Option, none, some, [], ◌∷◌, ◌==◌, ◌≡◌, ◌⊎◌, if◌then◌else◌,
}
use kubernetes_kops_operator.Io.{Result, ok, World, History}
use kubernetes_kops_operator.Outside.Call.{Call, Reply}

abbrev pub Store : Type 0
Store = String → Option String

abbrev pub put : String → Option String → Store → Store
put m o f n = if m == n then o else f n

-- What an answer says that the call did.
abbrev pub changed : (c : Call) → Result (Reply c) → Store → Store
changed (Call.get_or_create_secret name value) (ok (stored, created)) f =
    if created then put name (some value) f else f
changed (Call.replace_secret name value) (ok x) f = put name (some value) f
changed (Call.delete_secret name) (ok x) f = put name none f
changed _ _ f = f

-- The contents after a history, from those at its start.
abbrev pub contents : World → Store → History → Store
contents w base [] = base
contents w base (c ∷ h) = changed c (w.answer h c) (contents w base h)

abbrev pub is_secret_call : Call → Bool
is_secret_call (Call.get_or_create_secret name value) = true
is_secret_call (Call.replace_secret name value) = true
is_secret_call (Call.delete_secret name) = true
is_secret_call _ = false

-- `fi.SecretStore` that does not fail: `GetOrCreateSecret` creates what is missing, and otherwise answers with what
-- the store holds.
pub record Lawful (w : World) (base : Store) : Type 0 where
  pub works :
      (h : History) (c : Call) → is_secret_call c ≡ true → (x : Reply c) × (w.answer h c ≡ ok x)
  pub gets :
      (h : History) (name value stored : String) (created : Bool)
      → w.answer h (Call.get_or_create_secret name value) ≡ ok (stored, created)
      → ((created ≡ true) × (contents w base h name ≡ none))
        ⊎ ((created ≡ false) × (contents w base h name ≡ some stored))
