-- ===== src/Fleet/Strip/Private.antt =====
-- After `_strip_host_lists` no prevalence of the snapshot names a host.
use yoinkc.Base.{
  ◌≡◌, refl, Option-cases, ◌⊎◌, inl, inr, Option, none, some, List, [], ◌∷◌, map, arith, All,
  ==_refl, string_eq,
}
use yoinkc.Schema.{
  FleetPrevalence, InspectionSnapshot, Json, obj, arr, nil, Fields, get, get-put, RpmSection,
  ServiceSection, ScheduledTaskSection, ContainerSection, SelinuxSection, NonRpmSoftwareSection,
  UserGroupSection, ConfigSection, NetworkSection,
}
use yoinkc.Fleet.Item.{Item}
use yoinkc.Fleet.Item.Instances.{
  package_entry, enabled_module_stream, version_lock_entry, repo_file, config_file_entry,
  service_state_change, systemd_drop_in, firewall_zone, cron_job, generated_timer_unit,
  quadlet_unit, compose_file, non_rpm_item, selinux_port_label,
}
use yoinkc.Fleet.Strip.{
  without_hosts, strip_item, on_section, strip_fleet, strip_dict, strip_host_lists,
}

-- A prevalence that names no host.
abbrev pub NamesNoHost : Option FleetPrevalence → Type 0
NamesNoHost none = Unit
NamesNoHost (some f) = f.hosts ≡ []

abbrev pub AllPrivate : {A : Type 0} → Item A → List A → Type 0
AllPrivate i items = All (λ item. NamesNoHost (i.fleet item)) items

-- A dict whose prevalence names no host.
abbrev FleetNamesNoHost : Option Json → Type 0
FleetNamesNoHost (some (obj fleet)) =
    (get "hosts" fleet ≡ none) ⊎ (get "hosts" fleet ≡ some (arr nil))
FleetNamesNoHost _ = Unit

without_hosts-NamesNoHost : (f : Option FleetPrevalence) → NamesNoHost (without_hosts f)
unfolding without_hosts
without_hosts-NamesNoHost none = tt
without_hosts-NamesNoHost (some f) = refl

strip_item-AllPrivate :
    {A : Type 0} ⦃i : Item A⦄ (items : List A) → AllPrivate i (map strip_item items)
unfolding strip_item
strip_item-AllPrivate [] = tt
strip_item-AllPrivate ⦃i⦄ (x ∷ items) =
    (rw i.fleet-set_fleet (without_hosts-NamesNoHost (i.fleet x)), strip_item-AllPrivate items)

abbrev pub DictIsPrivate : Fields → Type 0
DictIsPrivate item = FleetNamesNoHost (get "fleet" item)

strip_fleet-FleetNamesNoHost : (fleet : Json) → FleetNamesNoHost (some (strip_fleet fleet))
unfolding strip_fleet
strip_fleet-FleetNamesNoHost (obj fleet) = ground (arith, get-put "hosts" "hosts" (arr nil) fleet)
strip_fleet-FleetNamesNoHost _ = tt

strip_dict-DictIsPrivate : (item : Fields) → DictIsPrivate (strip_dict item)
unfolding strip_dict
strip_dict-DictIsPrivate item = elim (Option-cases (get "fleet" item)) [
  | inl none_there ↦ rw (none_there, strip_dict) (rw none_there tt)
  | inr (fleet, there) ↦
      rw (there, strip_dict) (rw (get-put, ==_refl) (strip_fleet-FleetNamesNoHost fleet))
]

strip_dict-All : (items : List Fields) → All DictIsPrivate (map strip_dict items)
strip_dict-All [] = tt
strip_dict-All (x ∷ items) = (strip_dict-DictIsPrivate x, strip_dict-All items)

abbrev pub OnSome : {S : Type 0} → (S → Type 0) → Option S → Type 0
OnSome P none = Unit
OnSome P (some s) = P s

-- No item of a section and no dict of a section names a host in its prevalence.
pub record NamesNoHosts (s : InspectionSnapshot) : Type 0 where
  pub rpm :
      OnSome
        (λ (r : RpmSection).
          AllPrivate package_entry r.packages_added
          × AllPrivate package_entry r.base_image_only
          × AllPrivate repo_file r.repo_files
          × AllPrivate repo_file r.gpg_keys
          × AllPrivate enabled_module_stream r.module_streams
          × AllPrivate version_lock_entry r.version_locks)
        s.rpm
  pub config : OnSome (λ (c : ConfigSection). AllPrivate config_file_entry c.files) s.config
  pub services :
      OnSome
        (λ (c : ServiceSection).
          AllPrivate service_state_change c.state_changes × AllPrivate systemd_drop_in c.drop_ins)
        s.services
  pub network : OnSome (λ (n : NetworkSection). AllPrivate firewall_zone n.firewall_zones) s.network
  pub scheduled_tasks :
      OnSome
        (λ (t : ScheduledTaskSection).
          AllPrivate cron_job t.cron_jobs × AllPrivate generated_timer_unit t.generated_timer_units)
        s.scheduled_tasks
  pub containers :
      OnSome
        (λ (c : ContainerSection).
          AllPrivate quadlet_unit c.quadlet_units × AllPrivate compose_file c.compose_files)
        s.containers
  pub selinux :
      OnSome
        (λ (e : SelinuxSection).
          All DictIsPrivate e.boolean_overrides × AllPrivate selinux_port_label e.port_labels)
        s.selinux
  pub non_rpm_software :
      OnSome
        (λ (n : NonRpmSoftwareSection).
          AllPrivate non_rpm_item n.items × AllPrivate config_file_entry n.env_files)
        s.non_rpm_software
  pub users_groups :
      OnSome
        (λ (u : UserGroupSection).
          All DictIsPrivate u.users
          × All DictIsPrivate u.groups
          × All DictIsPrivate u.ssh_authorized_keys_refs)
        s.users_groups

OnSome-on_section :
    {S : Type 0} (P : S → Type 0) (f : S → S) (o : Option S)
    → ((x : S) → P (f x))
    → OnSome P (on_section f o)
OnSome-on_section P f none h = tt
OnSome-on_section P f (some x) h = h x

-- Whatever the snapshot, after `_strip_host_lists` no prevalence of an item, and none of a dict of users,
-- groups, key references or SELinux booleans, names a host.
pub strip_host_lists-NamesNoHosts : (s : InspectionSnapshot) → NamesNoHosts (strip_host_lists s)
unfolding strip_host_lists
strip_host_lists-NamesNoHosts s = record {
  rpm = OnSome-on_section _ _ s.rpm (λ r. (
    strip_item-AllPrivate r.packages_added,
    strip_item-AllPrivate r.base_image_only,
    strip_item-AllPrivate r.repo_files,
    strip_item-AllPrivate r.gpg_keys,
    strip_item-AllPrivate r.module_streams,
    strip_item-AllPrivate r.version_locks,
  ));
  config = OnSome-on_section _ _ s.config (λ c. strip_item-AllPrivate c.files);
  services =
      OnSome-on_section _ _ s.services
        (λ c. (strip_item-AllPrivate c.state_changes, strip_item-AllPrivate c.drop_ins));
  network = OnSome-on_section _ _ s.network (λ n. strip_item-AllPrivate n.firewall_zones);
  scheduled_tasks =
      OnSome-on_section _ _ s.scheduled_tasks
        (λ t. (strip_item-AllPrivate t.cron_jobs, strip_item-AllPrivate t.generated_timer_units));
  containers =
      OnSome-on_section _ _ s.containers
        (λ c. (strip_item-AllPrivate c.quadlet_units, strip_item-AllPrivate c.compose_files));
  selinux =
      OnSome-on_section _ _ s.selinux
        (λ e. (strip_dict-All e.boolean_overrides, strip_item-AllPrivate e.port_labels));
  non_rpm_software =
      OnSome-on_section _ _ s.non_rpm_software
        (λ n. (strip_item-AllPrivate n.items, strip_item-AllPrivate n.env_files));
  users_groups = OnSome-on_section _ _ s.users_groups (λ u.
      (strip_dict-All u.users, strip_dict-All u.groups, strip_dict-All u.ssh_authorized_keys_refs));
}
