-- ===== src/Process/Devices.antt =====
-- netops-backend/app/process_designer/code_generator.py: the validation of a process, and the lists
-- of devices that the generated program connects to. The text of that program is not modelled.
pub mod Distinct
use net_soc_ops.Prelude.{
  ℕ, String, Bool, true, false, not, ◌&&◌, ◌||◌, Option, none, some, List, [], ◌∷◌, ◌++◌, map, find,
  select, any, elem, length, get_or, str_eq, ◌==◌, if◌then◌else◌,
}

-- `sshConfig` of a node, with the two spellings of its keys.
pub record SshConfig : Type 0 where
  pub device_type : Option String
  pub device_type_camel : Option String
  pub port : Option ℕ
  pub username : Option String
  pub password : Option String
  pub enable_secret : Option String
  pub enable_secret_camel : Option String

-- A node of a process; `data` is spread out, with what the keys that are absent count as.
pub record Node : Type 0 where
  pub kind : String
  pub id : Option String
  pub ssh_config : SshConfig
  pub selected_devices : List String
  pub use_device_from_node_id : Option String

pub record Device : Type 0 where
  pub name : String
  pub device_type : String
  pub host : String
  pub port : ℕ
  pub username : String
  pub password : String
  pub secret : String

abbrev pub of_kind : String → List Node → List Node
of_kind kind nodes = select (λ n. str_eq n.kind kind) nodes

abbrev if_not {ℓ} : {A : Type ℓ} → Bool → A → List A
if_not test message = if test then [] else message ∷ []

abbrev is_empty {ℓ} : {A : Type ℓ} → List A → Bool
is_empty [] = true
is_empty (x ∷ xs) = false

-- The messages of `validate`; the process is valid if there is none.
unfoldable pub validate : List Node → List String
validate nodes =
    if_not (length (of_kind "start" nodes) == 1) "流程必须包含一个开始节点"
    ++ if_not (length (of_kind "end" nodes) == 1) "流程必须包含一个结束节点"
    ++ (if is_empty (of_kind "penetrationTest" nodes)
        then (if_not (not (is_empty (of_kind "deviceConnect" nodes))) "流程必须包含至少一个设备连接节点"
            ++ if_not
                (not (is_empty (of_kind "configDeploy" nodes))
                  || not (is_empty (of_kind "configBackup" nodes)))
                "流程必须包含至少一个配置下发节点或配置备份节点")
        else [])

-- `x or y or ""`.
abbrev first_text : Option String → Option String → String
first_text (some s) other = let second = get_or other "" in if str_eq s "" then second else s
first_text none other = get_or other ""

unfoldable pub device_of : SshConfig → String → Device
device_of ssh device_ip = record {
  name = device_ip;
  device_type = first_text ssh.device_type ssh.device_type_camel;
  host = device_ip;
  port = get_or ssh.port 22;
  username = get_or ssh.username "";
  password = get_or ssh.password "";
  secret = first_text ssh.enable_secret ssh.enable_secret_camel;
}

abbrev devices_of_node : Node → List Device
unfolding device_of
devices_of_node n = map (device_of n.ssh_config) n.selected_devices

unfoldable pub devices_of_nodes : List Node → List Device
unfolding device_of
devices_of_nodes [] = []
devices_of_nodes (n ∷ ns) = devices_of_node n ++ devices_of_nodes ns

unfoldable pub device_list : List Node → List Device
unfolding devices_of_nodes
device_list nodes = devices_of_nodes (of_kind "deviceConnect" nodes)

abbrev first {ℓ} : {A : Type ℓ} → List A → Option A
first [] = none
first (x ∷ xs) = some x

abbrev has_id : String → Node → Bool
has_id wanted n = elim n.id [ none ↦ false | some i ↦ str_eq i wanted ]

-- The connection node of the first backup node: the one that it names, or the first of all.
unfoldable pub backup_source : List Node → Option Node
backup_source nodes = from_backup (of_kind "configBackup" nodes)
  where
    chosen : Option String → Option Node
    chosen none = first (of_kind "deviceConnect" nodes)
    chosen (some wanted) =
        if str_eq wanted ""
        then first (of_kind "deviceConnect" nodes)
        else find (has_id wanted) (of_kind "deviceConnect" nodes)

    from_backup : List Node → Option Node
    from_backup [] = none
    from_backup (b ∷ bs) = chosen b.use_device_from_node_id

-- The last device of the list with the host and a type: what the dictionary of the types holds.
abbrev type_of_host : String → List Device → Option String
type_of_host host [] = none
type_of_host host (d ∷ ds) = elim (type_of_host host ds) [
  | some t ↦ some t
  | none ↦ if str_eq d.host host && not (str_eq d.device_type "") then some d.device_type else none
]

-- A device without a type takes that of the same host in the list of the connections.
unfoldable pub complete_type : List Device → Device → Device
complete_type known d =
    if str_eq d.device_type ""
    then record d { device_type = get_or (type_of_host d.host known) "" }
    else d

unfoldable pub backup_device_list : List Node → List Device
unfolding backup_source device_list complete_type device_of
backup_device_list nodes = elim (backup_source nodes) [
  | none ↦ []
  | some n ↦ map (complete_type (device_list nodes)) (devices_of_node n)
]

abbrev pub hosts : List Device → List String
hosts = map (λ d. d.host)

-- The loop over the backup devices, with the hosts that have been seen.
unfoldable pub append_unseen : List String → List Device → List Device
append_unseen seen_hosts [] = []
append_unseen seen_hosts (d ∷ ds) =
    let kept = append_unseen (d.host ∷ seen_hosts) ds in
    let skipped = append_unseen seen_hosts ds in
    if elem d.host seen_hosts then skipped else d ∷ kept

unfoldable pub all_devices : List Node → List Device
unfolding device_list backup_device_list append_unseen
all_devices nodes =
    device_list nodes ++ append_unseen (hosts (device_list nodes)) (backup_device_list nodes)
