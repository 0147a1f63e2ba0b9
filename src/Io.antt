-- ===== src/Io.antt =====
-- Code that talks to the outside. An action is run in a world, which stands for all code that is not
-- part of the repository, and on the history of the calls made so far, newest first. What the world
-- answers may depend on that history, so every behaviour of the outside is covered. The history also
-- comes back after an error or a panic: what was done stays done.
pub mod Emits
pub mod Count
pub mod Preserves
pub mod Sure
pub mod Steady
pub mod Adds
use kubernetes_kops_operator.Prelude.{
  ℕ, String, ◌<>◌, Bool, true, false, Option, none, some, List, [], ◌∷◌,
}
use kubernetes_kops_operator.Outside.Call.{Call, Reply}
use kubernetes_kops_operator.Api.Meta.{ObjectMeta, Condition}
use kubernetes_kops_operator.Api.{KarpenterNodePool}
use kubernetes_kops_operator.Api.Kops.{KubeletConfigSpec, RestConfig}
use kubernetes_kops_operator.Api.Karpenter.{Ec2NodeClass}

-- A Go error: its text, and whether `apierrors.IsNotFound` holds of it.
pub record Error : Type 0 where
  pub message : String
  pub not_found : Bool

-- The result of a call. `panic` is a Go panic.
pub data Result (A : Type 0) : Type 0 where
  ok : A → Result A
  err : Error → Result A
  panic : Result A

abbrev pub History : Type 0
History = List Call

-- The outside: the answers to the calls, and the pure functions of third-party packages.
pub record World : Type 0 where
  pub answer : History → (c : Call) → Result (Reply c)
  -- `time.Now`
  pub clock : History → ℕ
  -- `conditions.MarkTrue` and `conditions.MarkFalse` of Cluster API
  pub mark : Condition → List Condition → List Condition
  -- `controllerutil.AddFinalizer` and its companions of controller-runtime
  pub contains_finalizer : String → List String → Bool
  pub add_finalizer : String → List String → List String
  pub remove_finalizer : String → List String → List String
  -- `annotations.HasPaused` of Cluster API
  pub has_paused : ObjectMeta → Bool
  -- `reflectutils.JSONMergeStruct` of kOps, on the kubelet settings
  pub merge_kubelet : KubeletConfigSpec → KubeletConfigSpec → KubeletConfigSpec
  -- `netip.ParseAddr` and `IP.String` for IPv6, as sixteen bytes
  pub parse_ip6 : String → Option (List ℕ)
  pub show_ip6 : List ℕ → String
  -- `resource.ParseQuantity` of apimachinery: whether it parses with a sign of zero or more
  pub is_nonneg_quantity : String → Bool
  -- `strconv.ParseFloat`: whether the text is a number from 0 to 100
  pub is_percentage : String → Bool
  -- the name of terraform among the products of hc-install
  pub terraform_product : String
  -- `unicode.IsLetter` and `unicode.IsDigit`, beyond ASCII
  pub is_letter : ℕ → Bool
  -- `clientcmd.Write` of the kubeconfig for a cluster, with the current context
  pub kubeconfig_yaml : RestConfig → String → String → Result String
  -- `yaml.Marshal` of the Karpenter objects, of the placeholder, and `sha256.Sum256` in hexadecimal
  pub node_pool_yaml : KarpenterNodePool → Result String
  pub ec2_node_class_yaml : Ec2NodeClass → Result String
  pub placeholder_yaml : Result String
  pub sha256_hex : String → String

abbrev pub Io : Type 0 → Type 0
Io A = World → History → Result A × History

abbrev pub continue : {A B : Type 0} → Result A × History → World → (A → Io B) → Result B × History
continue (ok a, h) w f = f a w h
continue (err e, h) w f = (err e, h)
continue (panic, h) w f = (panic, h)

module _ {A : Type 0} where
  unfoldable pub pure : A → Io A
  pure a w h = (ok a, h)

  unfoldable pub fail : Error → Io A
  fail e w h = (err e, h)

  unfoldable pub crash : Io A
  crash w h = (panic, h)

  -- A pure value of the world.
  unfoldable pub ask : (World → A) → Io A
  ask f w h = (ok (f w), h)

unfoldable pub current_time : Io ℕ
current_time w h = (ok (w.clock h), h)

-- One call: it is recorded, and answered.
unfoldable pub perform : (c : Call) → Io (Reply c)
perform c w h = (w.answer h c, c ∷ h)

-- A call that returns nothing: a lock, an event, a metric, a pause.
unfoldable pub emit : Call → Io (Unit {0})
emit c w h = (ok tt, c ∷ h)

module _ {A B : Type 0} where
  infixl 5 ◌>>=◌ ◌>>◌
  unfoldable pub ◌>>=◌ : Io A → (A → Io B) → Io B
  unfolding pure fail crash ask perform emit
  ◌>>=◌ m f w h = continue (m w h) w f

  abbrev pub ◌>>◌ : Io A → Io B → Io B
  m >> k = m >>= λ _. k

  abbrev pub recover : Result A × History → World → (A → Io B) → (Error → Io B) → Result B × History
  recover (ok a, h) w f g = f a w h
  recover (err e, h) w f g = g e w h
  recover (panic, h) w f g = (panic, h)

  -- `a, err := m; if err != nil { g } else { f }`
  unfoldable pub try : Io A → (A → Io B) → (Error → Io B) → Io B
  try m f g w h = recover (m w h) w f g

-- `defer cleanup()`: it runs on every way out, and its own error is dropped.
unfoldable pub finally : {A : Type 0} → Io A → Io (Unit {0}) → Io A
finally m cleanup w h = let (r, k) = m w h in (r, (cleanup w k).1)

-- A deferred `recover()` that turns a panic into an error.
abbrev pub rescued : {A : Type 0} → Error → Result A → Result A
rescued e panic = err e
rescued e (ok a) = ok a
rescued e (err x) = err x

unfoldable pub recovering : {A : Type 0} → Error → Io A → Io A
recovering e m w h = let (r, k) = m w h in (rescued e r, k)

-- A pure function that fails or panics.
unfoldable pub lift : {A : Type 0} → Result A → Io A
lift r w h = (r, h)

abbrev pub maybe : {A B : Type 0} → Option B → Io A → (B → Io A) → Io A
maybe none n s = n
maybe (some b) n s = s b

abbrev pub when : Bool → Io (Unit {0}) → Io (Unit {0})
when true m = m
when false m = pure tt

module _ {A : Type 0} where
  abbrev pub choose : Bool → Io A → Io A → Io A
  choose true m n = m
  choose false m n = n

  -- `for _, a := range xs { body }`, left at the first error.
  unfoldable pub for_each : List A → (A → Io (Unit {0})) → Io (Unit {0})
  for_each [] body = pure tt
  for_each (a ∷ xs) body = body a >> for_each xs body

-- A call of which only the error is used.
unfoldable pub act : Call → Io (Unit {0})
unfolding ◌>>=◌
act c = perform c >> pure tt

abbrev pub error : String → Error
error text = record { message = text; not_found = false }

-- `errors.Wrap(err, text)` and `fmt.Errorf("text: %w", err)`: the cause stays visible.
abbrev pub wrap : String → Error → Error
wrap text e = record { message = text <> ": " <> e.message; not_found = e.not_found }

-- `fmt.Errorf("text%v", err)`: only the text of the cause is kept.
abbrev pub opaque_wrap : String → Error → Error
opaque_wrap text e = error (text <> e.message)

-- `_ = m`, or an error that is only logged.
abbrev pub ignoring : Io (Unit {0}) → Io (Unit {0})
ignoring m = try m pure (λ e. pure tt)

-- `if err != nil { return g(err) }`
abbrev pub wrapping : {A : Type 0} → (Error → Error) → Io A → Io A
wrapping g m = try m pure (λ e. fail (g e))
