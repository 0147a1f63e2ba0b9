-- ===== src/Lib.antt =====
-- The kOps operator: a controller that keeps a kOps cluster for each KopsControlPlane.
--
-- One worker takes a request, `Reconcile` loads the control plane and its owner, and either deletes the
-- cluster (terraform destroy, then what kOps left over) or reconciles it: machine pools become instance
-- groups of the kOps state store, the cluster is written to the store, terraform files are generated, and
-- terraform applies them. A deferred function frees the mutex and writes the objects back. The kOps library
-- keeps process-wide state, so the workers share one mutex.
--
-- Which file models what:
--   Prelude: tests on numbers, lists, Go maps (Dict) and texts (Text).
--   Api: apis/controlplane/v1alpha1/kopscontrolplane_types.go and
--     apis/infrastructure/v1alpha1/kopsmachinepool_types.go, and what they embed of kOps, Cluster API,
--     AWS and Karpenter, with the fields that are read or written.
--   Outside: every call that leaves the process (Call), and the kind of effect of each (Effect).
--   Io: code that makes such calls. An action is run in a World, which answers each call as it likes from
--     the history of calls, and returns a value, an error or a panic with the longer history. Io/Emits
--     says which effects an action can have, Io/Preserves, Io/Sure and Io/Steady what it keeps, ensures and
--     returns, Io/Adds which calls it makes, and Io/Count counts calls.
--   Terraform: pkg/utils/terraform_utils.go (retries, plugin cache, init, apply, destroy, plan, cleanup,
--     files from templates). Pattern is the regular expression of ModifyTerraformProviderVersion with Go's way
--     to match it, Provider the procedure.
--   Kops: pkg/kops/kops.go (subnets, regions, listing, names, service ranges). Masks is about
--     bytes under masks, Dotted about addresses that are printed and parsed, Roundtrip about the service range as a text.
--   Utils: pkg/utils/kops_utils.go (kOps library, secrets, owners, credentials, validation). Secrets/Contents
--     reads off the calls what the secret store holds, and says what a store promises.
--   Karpenter: pkg/utils/karpenter_utils.go (labels, volumes, kubelet settings, node classes).
--   Controller: controllers/controlplane/kopscontrolplane_controller.go. Body is the monad of the code
--     behind the deferred function, over the variables it sees; Delete, Apply and Deferred are the parts of
--     Reconcile, Reconcile puts them together; State, Pools, Files and Owner are the other methods. Effects,
--     Writing, Lock, Keeps, Steps, Leads, Discipline, Whole and Reach carry the proofs of Safety and DryRun. Released is about
--     the deletion branch, Named and Finalizer carry it through the body, and Finalized through the deferred function; so
--     do Granted and Statuses with Ready, the last block; Back is about what the deferred function writes, Counted about
--     the metric it sets. Paused, Groups, Kept, Marks, Restores and Written state what single blocks do. Watches is
--     the map function of the machine pools and the predicate on the controller class.
--   Workers: the workers of the manager, on one reconciler and its mutex. Each makes the calls of its runs of
--     Reconcile, and a schedule says whose turn it is.
--   Entry: main.go. Start is main, from the parsed flags on, Entry the loop of a dry run over the control planes;
--     Selection compares its choice with the guards of Reconcile, Serving is about the run with the manager.
--   Tests: concrete objects, runs and instances of the theorems.
--
-- Every loop of the source is bounded: the loops over lists are structural, and the five rounds of a
-- terraform command are counted down from `max_retries`, so there is no fuel that could run out. Integers
-- are the native numbers; the only conversion that narrows, of the replicas to 32 bits, keeps its modulus.
--
-- The code of kOps, Cluster API, controller-runtime, AWS and terraform is not under the repository: its
-- operations are calls answered by the World, and its pure functions are fields of the World. Logging is
-- left out. Not modelled: the parsing of the flags, what the builder of controller-runtime does with the
-- watches, the registration of metrics and schemes, generated code, and the helpers of the tests. The edit of
-- kubernetes.tf before a plan is one call, of the library hcledit. Events carry their
-- reason and the part of their text that varies. After a panic in the middle of a loop over machine pools or
-- secrets the deferred function sees the objects as they were before the loop.

pub mod Prelude
pub mod Api
pub mod Outside
pub mod Io
pub mod Terraform
pub mod Kops
pub mod Utils
pub mod Workers
pub mod Karpenter
pub mod Controller
pub mod Tests
pub mod Entry
