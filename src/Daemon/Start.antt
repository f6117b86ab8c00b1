-- ===== src/Daemon/Start.antt =====
-- pkg/daemon/daemon.go: what the daemon reads from its storage at the start, getPortsMapping and
-- getPodsWithoutPort. Their log lines read the pod of a record and the first resource of a record
-- whose pod is gone, and panic where there is none.
use mathlib.Core.List.{append_assoc, append-nil}
use rubble.Prelude.{
  String, ◌≡◌, refl, sym, ap, ◌∙◌, inl, inr, Option, none, some, List, [], ◌∷◌, ◌++◌, str_eq,
  eq_iff, Bool-cases, Option-cases, if◌then◌else◌,
}
use rubble.Prelude.Run.{Run, ok, panic, ◌>>=◌, success, failure, Returns, returns, Returns-map}
use rubble.Prelude.Assoc.{lookup, insert, lookup-insert}
use rubble.Pods.{PodInfo, pod_info_key}
use rubble.Daemon.{ResourceItem, PodResources, Storage}

-- `portPodMapping[id]`: nil where the key is missing.
unfoldable pub read_list : String → List (String × List String) → List String
read_list id m = elim (lookup id m) [ none ↦ [] | some keys ↦ keys ]

-- The inner loop of getPortsMapping, over the resources of a pod.
unfoldable pub map_ports :
    String → List ResourceItem → List (String × List String) → List (String × List String)
map_ports key [] m = m
map_ports key (port ∷ ports) m =
    map_ports key ports (insert port.id (read_list port.id m ++ key ∷ []) m)

-- The log line on a record: whether it can be written.
unfoldable pub logged :
    List (String × PodInfo) → String → List ResourceItem → Run (List ResourceItem)
logged pods_usage key resources = elim (lookup key pods_usage) [
  | some _ ↦ ok resources
  | none ↦ elim resources [ [] ↦ panic | port ∷ ports ↦ ok (port ∷ ports) ]
]

unfoldable pub map_records :
    List (String × PodInfo)
    → List PodResources
    → List (String × List String)
    → Run (List (String × List String))
map_records pods_usage [] m = ok m
map_records pods_usage (res ∷ rest) m = elim res.pod_info [
  | none ↦ panic
  | some info ↦ logged pods_usage (pod_info_key info) res.resources >>= λ ports.
      map_records pods_usage rest (map_ports (pod_info_key info) ports m)
]

module _ {S : Type 0} (storage : Storage S) where
  unfoldable pub get_ports_mapping : List (String × PodInfo) → S → Run (List (String × List String))
  get_ports_mapping pods_usage db = map_records pods_usage (storage.list db) []

  -- The loop of getPodsWithoutPort, which keeps the pods that have a record.
  unfoldable pub keep_recorded :
      S → List PodInfo → List (String × PodInfo) → Run (List (String × PodInfo))
  keep_recorded db [] pod_maps = ok pod_maps
  keep_recorded db (p ∷ pods) pod_maps = elim (storage.get db (pod_info_key p)) [
    | failure _ ↦ keep_recorded db pods pod_maps
    | success found ↦ elim found.pod_info [
      | none ↦ panic
      | some _ ↦ keep_recorded db pods (insert (pod_info_key p) p pod_maps)
    ]
  ]

  unfoldable pub get_pods_without_port : List PodInfo → S → Run (List (String × PodInfo))
  get_pods_without_port pods db = keep_recorded db pods []

-- The pods that have a port, by the records: one key for each resource with the port's id.
abbrev pub holding : String → String → List ResourceItem → List String
holding id key [] = []
holding id key (port ∷ ports) =
    if str_eq port.id id then key ∷ holding id key ports else holding id key ports

abbrev pub holders : String → List PodResources → List String
holders id [] = []
holders id (res ∷ rest) = elim res.pod_info [
  | none ↦ holders id rest
  | some info ↦ holding id (pod_info_key info) res.resources ++ holders id rest
]

-- The entry of a port with these holders.
abbrev pub entry : List String → Option (List String)
entry [] = none
entry (key ∷ keys) = some (key ∷ keys)

-- Every record names its pod and a resource.
abbrev pub Complete : List PodResources → Type 0
Complete [] = Unit {0}
Complete (res ∷ rest) =
    ((info : PodInfo) × (port : ResourceItem) × (ports : List ResourceItem) × (res.pod_info
        ≡ some info)
      × (res.resources ≡ port ∷ ports))
    × Complete rest

entry-some :
    (keys : List String) (key : String) → entry (keys ++ key ∷ []) ≡ some (keys ++ key ∷ [])
entry-some [] key = refl
entry-some (k ∷ keys) key = refl

read_list-entry :
    (id : String) (m : List (String × List String)) (keys : List String)
    → lookup id m ≡ entry keys
    → read_list id m ≡ keys
unfolding read_list
read_list-entry id m [] e = rw (e, read_list) refl
read_list-entry id m (k ∷ keys) e = rw (e, read_list) refl

map_ports-entry :
    (key : String) (ports : List ResourceItem) (m : List (String × List String))
    (h : String → List String)
    → ((id : String) → lookup id m ≡ entry (h id))
    → (id : String) → lookup id (map_ports key ports m) ≡ entry (h id ++ holding id key ports)
unfolding map_ports
map_ports-entry key [] m h e id = e id ∙ ap entry (sym (append-nil (h id)))
map_ports-entry key (port ∷ ports) m h e id =
    map_ports-entry key ports (insert port.id (read_list port.id m ++ key ∷ []) m)
      (λ j. if str_eq port.id j then h j ++ key ∷ [] else h j)
      (λ j. lookup-insert port.id j _ m ∙ elim (Bool-cases (str_eq port.id j)) [
        | inl hit ↦ rw hit (
            ap (λ keys. some (keys ++ key ∷ []))
              (read_list-entry port.id m (h port.id) (e port.id) ∙ ap h ((eq_iff port.id j).0 hit))
            ∙ sym (entry-some (h j) key))
        | inr miss ↦ rw miss (e j)
      ])
      id
    ∙ elim (Bool-cases (str_eq port.id id)) [
      | inl hit ↦ rw hit (ap entry (append_assoc (h id) (key ∷ []) (holding id key ports)))
      | inr miss ↦ rw miss refl
    ]

logged-ok :
    (usage : List (String × PodInfo)) (key : String) (port : ResourceItem)
    (ports : List ResourceItem)
    → logged usage key (port ∷ ports) ≡ ok (port ∷ ports)
unfolding logged
logged-ok usage key port ports = elim (Option-cases (lookup key usage)) [
  | inl gone ↦ rw (gone, logged) refl
  | inr (info, here) ↦ rw (here, logged) refl
]

map_records-entry :
    (usage : List (String × PodInfo)) (records : List PodResources)
    (m : List (String × List String)) (h : String → List String)
    → Complete records
    → ((id : String) → lookup id m ≡ entry (h id))
    → Returns
        (λ m'. (id : String) → lookup id m' ≡ entry (h id ++ holders id records))
        (map_records usage records m)
unfolding map_records
map_records-entry usage [] m h c e = returns (λ id. e id ∙ ap entry (sym (append-nil (h id))))
map_records-entry usage (res ∷ rest) m h ((info, port, ports, pod, some_ports), c) e =
    let key = pod_info_key info in
    rw (pod, map_records)
      (rw (some_ports, map_records)
        (rw (logged-ok usage key port ports, ◌>>=◌)
          (Returns-map
            (map_records-entry usage rest (map_ports key (port ∷ ports) m)
              (λ id. h id ++ holding id key (port ∷ ports)) c
              (map_ports-entry key (port ∷ ports) m h e))
            λ m' f id.
              f id
              ∙ ap entry (append_assoc (h id) (holding id key (port ∷ ports)) (holders id rest)))))

-- If every record of the storage names its pod and a resource, getPortsMapping returns, and maps
-- each port to the pods whose records have it, in the order of the list, and no other port.
pub get_ports_mapping-holders :
    {S : Type 0} (storage : Storage S) (usage : List (String × PodInfo)) (db : S)
    → Complete (storage.list db)
    → Returns
        (λ m. (id : String) → lookup id m ≡ entry (holders id (storage.list db)))
        (get_ports_mapping storage usage db)
unfolding get_ports_mapping lookup
get_ports_mapping-holders storage usage db c =
    map_records-entry usage (storage.list db) [] (λ id. []) c (λ id. refl)
