-- ===== src/Inventory/Instances/Adding.antt =====
-- What `add_instance` leaves in the index and among the variables of the hosts.
use reliable_broadcast.Prelude.{
  ◌≡◌, ap, sym, ◌∙◌, true, Option, none, some, List, ◌==◌, contains, nat_eq, list_eq, if◌then◌else◌,
  Text, codes, Bool-cases, inl, inr, ◌⊎◌,
}
use reliable_broadcast.Result.{Result, ok, >>=-eq-ok, ok-injective}
use reliable_broadcast.Dict.{lookup, insert, lookup-insert}
use reliable_broadcast.Inventory.Settings.{
  Settings, Instance, Inventory, HostInfo, words, states_of, enter_host,
}
use reliable_broadcast.Inventory.Address.{destination, selected, get_instance_route53_names}
use reliable_broadcast.Inventory.HostVars.{get_host_info_dict_from_instance}
use reliable_broadcast.Inventory.Instances.{
  known_account, group_instance, enter_instance, enter_if, hostname_of, add_addressed, add_instance,
}

module _ (format : Text → List Text → Result Text) (s : Settings) (i : Instance) (region : Text)
    (inv : Inventory) where
  -- The instance was added to `inv` under a name, and `inv'` is the result.
  pub record Added (inv' : Inventory) : Type 0 where
    pub hostname : Text
    pub dest : Text
    pub info : HostInfo
    pub wanted : contains s.ec2_instance_states i.state ≡ true
    pub addressed : destination format s i ≡ ok (some dest)
    pub named : hostname_of format s i dest inv ≡ ok hostname
    pub chosen : selected s hostname ≡ true
    pub grouped :
        group_instance s i region hostname
          (known_account inv.aws_account_id)
          (get_instance_route53_names s inv.route53_records i)
          inv.groups
        ≡ ok inv'.groups
    pub described :
        get_host_info_dict_from_instance s inv.aws_account_id (some (states_of i)) i.variables
        ≡ ok info
    pub index_at :
        (k : Text)
        → lookup k inv'.index ≡ (if hostname == k then some (region, i.id) else lookup k inv.index)
    pub hostvars_at :
        (k : Text)
        → lookup k inv'.hostvars ≡ (
            if hostname == k
            then some (insert (codes "ansible_host") (words dest) info)
            else lookup k inv.hostvars)

  module _ (inv' : Inventory) (dest hostname : Text) where
    enter_instance-Added :
        enter_instance format s i region dest hostname inv ≡ ok inv'
        → contains s.ec2_instance_states i.state ≡ true
        → destination format s i ≡ ok (some dest)
        → hostname_of format s i dest inv ≡ ok hostname
        → selected s hostname ≡ true
        → Added inv'
    unfolding enter_instance enter_host
    enter_instance-Added h wanted addressed named chosen =
        let (groups, grouped, h₁) = >>=-eq-ok _ _ h in
        let (info, described, h₂) = >>=-eq-ok _ _ h₁ in
        let e = ok-injective h₂ in
        record {
          hostname = hostname;
          dest = dest;
          info = info;
          wanted = wanted;
          addressed = addressed;
          named = named;
          chosen = chosen;
          grouped = grouped ∙ ap (λ (x : Inventory). ok x.groups) e;
          described = described;
          index_at = λ k.
              ap (λ (x : Inventory). lookup k x.index) (sym e)
              ∙ lookup-insert hostname k (region, i.id) inv.index;
          hostvars_at = λ k.
              ap (λ (x : Inventory). lookup k x.hostvars) (sym e)
              ∙ lookup-insert hostname k (insert (codes "ansible_host") (words dest) info)
                  inv.hostvars;
        }

    enter_if-Added :
        enter_if format s (selected s hostname) i region dest hostname inv ≡ ok inv'
        → contains s.ec2_instance_states i.state ≡ true
        → destination format s i ≡ ok (some dest)
        → hostname_of format s i dest inv ≡ ok hostname
        → (inv' ≡ inv) ⊎ Added inv'
    enter_if-Added h wanted addressed named = elim (Bool-cases (selected s hostname)) [
      | inr left_out ↦ inl (sym (ok-injective (unfold enter_if in rw left_out at h)))
      | inl chosen ↦
          inr
            (enter_instance-Added (unfold enter_if in rw chosen at h) wanted addressed named chosen)
    ]

  add_addressed-Added :
      (inv' : Inventory) (dest : Option Text)
      → add_addressed format s i region dest inv ≡ ok inv'
      → contains s.ec2_instance_states i.state ≡ true
      → destination format s i ≡ ok dest
      → (inv' ≡ inv) ⊎ Added inv'
  unfolding add_addressed
  add_addressed-Added inv' none h wanted addressed = inl (sym (ok-injective h))
  add_addressed-Added inv' (some dest) h wanted addressed =
      let (hostname, named, entered) = >>=-eq-ok _ _ h in
      enter_if-Added inv' dest hostname entered wanted addressed named

  -- `add_instance` changes nothing, or the instance has a state that is asked for, an address and a
  -- name that the patterns let through, and then it is grouped under that name, described, and in
  -- the index as its region and id; no other host's entry in the index or among the variables
  -- changes.
  pub add_instance-Added :
      (inv' : Inventory) → add_instance format s i region inv ≡ ok inv' → (inv' ≡ inv) ⊎ Added inv'
  unfolding add_instance
  add_instance-Added inv' h = elim (Bool-cases (contains s.ec2_instance_states i.state)) [
    | inr unwanted ↦ inl (sym (ok-injective (rw unwanted at h)))
    | inl wanted ↦
        let (dest, addressed, added) = >>=-eq-ok _ _ (rw wanted at h) in
        add_addressed-Added inv' dest added wanted addressed
  ]
