-- ===== src/Utils/Objects.antt =====
-- Objects of the management cluster: owners, clusters, credentials, and the environment.
use kubernetes_kops_operator.Prelude.{String, ◌<>◌, none, some}
use kubernetes_kops_operator.Prelude.Dict.{Dict, lookup}
use kubernetes_kops_operator.Api.Meta.{ObjectMeta, OwnerReference, ObjectReference}
use kubernetes_kops_operator.Api.Kops.{Cluster, Credentials}
use kubernetes_kops_operator.Io.{
  Io, pure, fail, perform, act, emit, ◌>>=◌, ◌>>◌, try, choose, for_each, wrap, wrapping,
}
use kubernetes_kops_operator.Outside.Call.{Call}

abbrev pub owner_object : ObjectMeta → OwnerReference → ObjectReference
owner_object meta ref = record {
  api_version = ref.api_version;
  kind = ref.kind;
  namespace = meta.namespace;
  name = ref.name;
  uid = ref.uid;
}

-- An owner that is gone already is no error. The last pause is three seconds.
unfoldable pub delete_owner_resources : ObjectMeta → Io (Unit {0})
delete_owner_resources meta = do
  for_each meta.owner_references λ ref.
      try (act (Call.delete_object (owner_object meta ref))) pure
        (λ e. choose e.not_found (pure tt) (fail e))
  emit (Call.sleep_ms 3000)

unfoldable pub get_cluster_by_name : String → String → Io Cluster
get_cluster_by_name namespace name =
    wrapping (wrap ("failed to get Cluster/" <> name))
      (perform (Call.get_cluster (record { namespace = namespace; name = name })))

unfoldable pub set_env_vars_from_aws_credentials : Credentials → Io (Unit {0})
set_env_vars_from_aws_credentials creds = do
  act (Call.unset_env "AWS_ACCESS_KEY_ID")
  act (Call.unset_env "AWS_SECRET_ACCESS_KEY")
  act (Call.set_env "AWS_ACCESS_KEY_ID" creds.access_key_id)
  act (Call.set_env "AWS_SECRET_ACCESS_KEY" creds.secret_access_key)

-- `string(secret.Data[key])`: a missing key is the empty text.
abbrev secret_text : String → Dict String → String
secret_text key d = elim (lookup key d) [ none ↦ "" | some v ↦ v ]

unfoldable pub get_aws_credentials : String → String → Io Credentials
get_aws_credentials secret_name namespace = do
  content ←
      wrapping (wrap ("failed to get Secret/" <> secret_name))
        (perform (Call.get_secret (record { namespace = namespace; name = secret_name })))
  pure (record {
    access_key_id = secret_text "AccessKeyID" content;
    secret_access_key = secret_text "SecretAccessKey" content;
  })
