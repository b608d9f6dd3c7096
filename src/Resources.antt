-- ===== src/Resources.antt =====
-- pkg/util/selector.go: the types of objects by their keys and by their kinds, and what is read from the
-- metadata of an object. The pluralization of a kind in lower case is a parameter.
use harikube.Common.{
  Bytes, bytes_eq, codes, has_prefix, Bool, true, false, ◌&&◌, List, [], ◌++◌, ◌≡◌, refl,
  if◌then◌else◌,
}

-- The types that the code tells apart; `partial_metadata` is every other one.
pub data ObjectType : Type 0 where
  pod event secret namespace replica_set replication_controller job node : ObjectType
  certificate_signing_request cluster_role cluster_role_binding partial_metadata : ObjectType

-- `GetObjectByKey`
unfoldable pub get_object_by_key : Bytes → ObjectType
get_object_by_key key =
    if has_prefix (codes "/registry/pods/") key
    then ObjectType.pod
    else if has_prefix (codes "/registry/events/") key
    then ObjectType.event
    else if has_prefix (codes "/registry/secrets/") key
    then ObjectType.secret
    else if has_prefix (codes "/registry/namespaces/") key
    then ObjectType.namespace
    else if has_prefix (codes "/registry/replicasets/") key
    then ObjectType.replica_set
    else if has_prefix (codes "/registry/replicationcontrollers/") key
    then ObjectType.replication_controller
    else if has_prefix (codes "/registry/jobs/") key
    then ObjectType.job
    else if has_prefix (codes "/registry/minions/") key
    then ObjectType.node
    else if has_prefix (codes "/registry/certificatesigningrequests/") key
    then ObjectType.certificate_signing_request
    else if has_prefix (codes "/registry/clusterroles/") key
    then ObjectType.cluster_role
    else if has_prefix (codes "/registry/clusterrolebindings/") key
    then ObjectType.cluster_role_binding
    else ObjectType.partial_metadata

pub record Gvk : Type 0 where
  pub group : Bytes
  pub version : Bytes
  pub kind : Bytes

-- The prefix of the keys, the path of the API, and whether the resource has a namespace.
pub record Mapping : Type 0 where
  pub registry_prefix : Bytes
  pub api_base_path : Bytes
  pub namespaced : Bool

abbrev mapped : Bytes → Bytes → Bool → Mapping
mapped prefix path namespaced = record {
  registry_prefix = prefix;
  api_base_path = path;
  namespaced = namespaced;
}

abbrev is_gvk : Gvk → Bytes → Bytes → Bool
is_gvk g group kind = bytes_eq g.group group && bytes_eq g.kind kind

default_mapping : Bytes → Gvk → Mapping
default_mapping plural g =
    if bytes_eq g.group []
    then mapped (codes "/registry/" ++ plural ++ codes "/")
        (codes "/api/" ++ g.version ++ codes "/namespaces/{namespace}/" ++ plural) true
    else mapped (codes "/registry/" ++ g.group ++ codes "/" ++ plural ++ codes "/")
        (codes "/apis/"
          ++ g.group
          ++ codes "/"
          ++ g.version
          ++ codes "/namespaces/{namespace}/"
          ++ plural)
        true

-- `GetResourceMappingByGVK`
unfoldable pub get_resource_mapping : (Bytes → Bytes) → Gvk → Mapping
unfolding default_mapping
get_resource_mapping plural g =
    if is_gvk g [] (codes "Pod")
    then mapped (codes "/registry/pods/") (codes "/api/v1/namespaces/{namespace}/pods") true
    else if is_gvk g [] (codes "Event")
    then mapped (codes "/registry/events/") (codes "/api/v1/namespaces/{namespace}/events") true
    else if is_gvk g [] (codes "Secret")
    then mapped (codes "/registry/secrets/") (codes "/api/v1/namespaces/{namespace}/secrets") true
    else if is_gvk g [] (codes "Namespace")
    then mapped (codes "/registry/namespaces/") (codes "/api/v1/namespaces") false
    else if is_gvk g (codes "apps") (codes "ReplicaSet")
    then mapped (codes "/registry/replicasets/")
        (codes "/apis/apps/v1/namespaces/{namespace}/replicasets") true
    else if is_gvk g [] (codes "ReplicationController")
    then mapped (codes "/registry/replicationcontrollers/")
        (codes "/api/v1/namespaces/{namespace}/replicationcontrollers") true
    else if is_gvk g (codes "batch") (codes "Job")
    then mapped (codes "/registry/jobs/") (codes "/apis/batch/v1/namespaces/{namespace}/jobs") true
    else if is_gvk g [] (codes "Node")
    then mapped (codes "/registry/minions/") (codes "/api/v1/nodes") false
    else if is_gvk g (codes "certificates.k8s.io") (codes "CertificateSigningRequest")
    then mapped (codes "/registry/certificatesigningrequests/")
        (codes "/apis/certificates.k8s.io/v1/certificatesigningrequests") false
    else if is_gvk g (codes "rbac.authorization.k8s.io") (codes "ClusterRole")
    then mapped (codes "/registry/clusterroles/")
        (codes "/apis/rbac.authorization.k8s.io/v1/clusterroles") false
    else if is_gvk g (codes "rbac.authorization.k8s.io") (codes "ClusterRoleBinding")
    then mapped (codes "/registry/clusterrolebindings/")
        (codes "/apis/rbac.authorization.k8s.io/v1/clusterrolebindings") false
    else default_mapping (plural g.kind) g

-- An object with its metadata.
pub record Object : Type 0 where
  pub object_type : ObjectType
  pub uid : Bytes
  pub resource_version : Bytes
  pub finalizers : List Bytes
  pub labels : List (Bytes × Bytes)

-- The types that the readers of metadata have a case for.
abbrev has_case : ObjectType → Bool
has_case ObjectType.cluster_role = false
has_case ObjectType.cluster_role_binding = false
has_case _ = true

-- `GetUIDByObject`
unfoldable pub get_uid : Object → Bytes
get_uid o = if has_case o.object_type then o.uid else []

-- `GetResourceVersionByObject`
unfoldable pub get_resource_version : Object → Bytes
get_resource_version o = if has_case o.object_type then o.resource_version else []

-- `GetFinalizersByObject`
unfoldable pub get_finalizers : Object → List Bytes
get_finalizers o = if has_case o.object_type then o.finalizers else []

-- `GetLabelsSetByObject`
unfoldable pub get_labels : Object → List (Bytes × Bytes)
get_labels o = if has_case o.object_type then o.labels else []

-- The kind of a type that the code knows.
abbrev pub gvk_of : ObjectType → Gvk
gvk_of ObjectType.pod = record { group = []; version = codes "v1"; kind = codes "Pod" }
gvk_of ObjectType.event = record { group = []; version = codes "v1"; kind = codes "Event" }
gvk_of ObjectType.secret = record { group = []; version = codes "v1"; kind = codes "Secret" }
gvk_of ObjectType.namespace = record { group = []; version = codes "v1"; kind = codes "Namespace" }
gvk_of ObjectType.replica_set = record {
  group = codes "apps";
  version = codes "v1";
  kind = codes "ReplicaSet";
}
gvk_of ObjectType.replication_controller = record {
  group = [];
  version = codes "v1";
  kind = codes "ReplicationController";
}
gvk_of ObjectType.job = record { group = codes "batch"; version = codes "v1"; kind = codes "Job" }
gvk_of ObjectType.node = record { group = []; version = codes "v1"; kind = codes "Node" }
gvk_of ObjectType.certificate_signing_request = record {
  group = codes "certificates.k8s.io";
  version = codes "v1";
  kind = codes "CertificateSigningRequest";
}
gvk_of ObjectType.cluster_role = record {
  group = codes "rbac.authorization.k8s.io";
  version = codes "v1";
  kind = codes "ClusterRole";
}
gvk_of ObjectType.cluster_role_binding = record {
  group = codes "rbac.authorization.k8s.io";
  version = codes "v1";
  kind = codes "ClusterRoleBinding";
}
gvk_of ObjectType.partial_metadata = record {
  group = [];
  version = codes "v1";
  kind = codes "ConfigMap";
}

-- The two tables agree: a key below the prefix that a known kind is stored under is one of its type; for
-- config maps, as an example of the other kinds, where the plural is the one of Kubernetes.
pub get_object_by_key-mapping :
    (plural : Bytes → Bytes) (t : ObjectType) (rest : Bytes)
    → plural (codes "ConfigMap") ≡ codes "configmaps"
    → get_object_by_key ((get_resource_mapping plural (gvk_of t)).registry_prefix ++ rest) ≡ t
unfolding get_object_by_key get_resource_mapping default_mapping has_prefix bytes_eq
get_object_by_key-mapping plural ObjectType.pod rest p = refl
get_object_by_key-mapping plural ObjectType.event rest p = refl
get_object_by_key-mapping plural ObjectType.secret rest p = refl
get_object_by_key-mapping plural ObjectType.namespace rest p = refl
get_object_by_key-mapping plural ObjectType.replica_set rest p = refl
get_object_by_key-mapping plural ObjectType.replication_controller rest p = refl
get_object_by_key-mapping plural ObjectType.job rest p = refl
get_object_by_key-mapping plural ObjectType.node rest p = refl
get_object_by_key-mapping plural ObjectType.certificate_signing_request rest p = refl
get_object_by_key-mapping plural ObjectType.cluster_role rest p = refl
get_object_by_key-mapping plural ObjectType.cluster_role_binding rest p = refl
get_object_by_key-mapping plural ObjectType.partial_metadata rest p = simp p refl

-- Objects at the keys of cluster roles have no labels, no UID and no finalizers for the readers, whatever
-- their metadata holds.
pub labels_lost :
    (o : Object) (rest : Bytes)
    → o.object_type ≡ get_object_by_key (codes "/registry/clusterroles/" ++ rest)
    → (get_labels o ≡ []) × (get_uid o ≡ []) × (get_finalizers o ≡ [])
unfolding get_object_by_key has_prefix get_labels get_uid get_finalizers
labels_lost o rest p = (simp p refl, simp p refl, simp p refl)
