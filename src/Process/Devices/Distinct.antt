-- ===== src/Process/Devices/Distinct.antt =====
-- The list of all devices.
use net_soc_ops.Prelude.{
  String, ◌≡◌, refl, inl, inr, true, false, ◌||◌, List, [], ◌∷◌, ◌++◌, elem, elem-append,
  AreDistinct, AreDistinct-append, str_eq, eq_refl, eq_iff, arith, Bool-cases,
}
use net_soc_ops.Process.Devices.{
  Node, Device, device_list, backup_device_list, hosts, append_unseen, all_devices,
}

elem-same : (a b : String) (xs : List String) → str_eq a b ≡ true → elem a xs ≡ elem b xs
elem-same a b xs same = let e = (eq_iff a b).0 same in rw e

hosts-append : (xs ys : List Device) → hosts (xs ++ ys) ≡ hosts xs ++ hosts ys
hosts-append [] ys = refl
hosts-append (x ∷ xs) ys = rw (hosts-append xs ys)

-- The loop adds no host that was seen, and no host twice.
append_unseen-unseen :
    (h : String) (seen : List String) (ds : List Device)
    → elem h seen ≡ true
    → elem h (hosts (append_unseen seen ds)) ≡ false
unfolding append_unseen
append_unseen-unseen h seen [] k = refl
append_unseen-unseen h seen (d ∷ ds) k = elim (Bool-cases (elem d.host seen)) [
  | inl e ↦ rw e (append_unseen-unseen h seen ds k)
  | inr e ↦ elim (Bool-cases (str_eq h d.host)) [
    | inl same ↦ cc (k, e, elem-same h d.host seen same)
    | inr other ↦ rw e (rw other (append_unseen-unseen h (d.host ∷ seen) ds (rw other k)))
  ]
]

append_unseen-AreDistinct :
    (seen : List String) (ds : List Device) → AreDistinct (hosts (append_unseen seen ds))
unfolding append_unseen
append_unseen-AreDistinct seen [] = tt
append_unseen-AreDistinct seen (d ∷ ds) = elim (Bool-cases (elem d.host seen)) [
  | inl e ↦ rw e (append_unseen-AreDistinct seen ds)
  | inr e ↦ rw e (
    append_unseen-unseen d.host (d.host ∷ seen) ds (rw (eq_refl d.host)),
    append_unseen-AreDistinct (d.host ∷ seen) ds,
  )
]

-- Every host that is not new is kept out, every other is added.
append_unseen-elem :
    (h : String) (seen : List String) (ds : List Device)
    → elem h seen || elem h (hosts (append_unseen seen ds)) ≡ elem h seen || elem h (hosts ds)
unfolding append_unseen
append_unseen-elem h seen [] = refl
append_unseen-elem h seen (d ∷ ds) = elim (Bool-cases (elem d.host seen)) [
  | inl e ↦ ground (arith, e, append_unseen-elem h seen ds, elem-same h d.host seen)
  | inr e ↦ ground (arith, e, append_unseen-elem h (d.host ∷ seen) ds)
]

-- The program connects once to each host where no host is selected twice for a connection.
pub all_devices-AreDistinct :
    (nodes : List Node)
    → AreDistinct (hosts (device_list nodes))
    → AreDistinct (hosts (all_devices nodes))
unfolding all_devices
all_devices-AreDistinct nodes h =
    let old = device_list nodes in
    let new = append_unseen (hosts old) (backup_device_list nodes) in
    rw (hosts-append old new) (
      AreDistinct-append (hosts old) (hosts new) h
        (append_unseen-AreDistinct (hosts old) (backup_device_list nodes))
        (λ s k. append_unseen-unseen s (hosts old) (backup_device_list nodes) k))

-- The program connects to a host exactly if it is one of a connection or of the backup.
pub all_devices-elem :
    (nodes : List Node) (host : String)
    → elem host (hosts (all_devices nodes))
      ≡ elem host (hosts (device_list nodes)) || elem host (hosts (backup_device_list nodes))
unfolding all_devices
all_devices-elem nodes host =
    let old = device_list nodes in
    let new = append_unseen (hosts old) (backup_device_list nodes) in
    rw (hosts-append old new) (
      rw (elem-append host (hosts old) (hosts new))
        (append_unseen-elem host (hosts old) (backup_device_list nodes)))
