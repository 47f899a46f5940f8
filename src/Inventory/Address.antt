-- ===== src/Inventory/Address.antt =====
-- How ops/ansible/ec2.py chooses the address and the name of an instance.
use reliable_broadcast.Prelude.{
  Bool, true, false, not, ◌&&◌, Option, none, some, List, [], ◌∷◌, ◌++◌, map, contains, nat_eq,
  list_eq, if◌then◌else◌, Text, codes, drop, length, leb, ◌==◌, ◌-◌,
}
use reliable_broadcast.Result.{Result, ok, raise, ◌>>=◌, attribute_error}
use reliable_broadcast.Dict.{Dict, lookup}
use reliable_broadcast.Inventory.Names.{lower, starts_with}
use reliable_broadcast.Inventory.Settings.{Settings, Instance}
use reliable_broadcast.Inventory.Filing.{truthy, safe}

-- `str.endswith`
unfoldable pub ends_with : Text → Text → Bool
ends_with suffix s = leb (length suffix) (length s) && drop (length s - length suffix) s == suffix

abbrev present : Option (Option Text) → Option Text
present none = none
present (some value) = value

-- `getattr(instance, name, None)`, and the tag of that name where it is `None`
unfoldable pub attribute_or_tag : Instance → Text → Option Text
attribute_or_tag instance' name = elim (present (lookup name instance'.attributes)) [
  | none ↦ lookup name instance'.tags
  | some value ↦ some value
]

abbrev or_none : Option Text → Text
or_none none = codes "None"
or_none (some value) = value

-- One field of the destination format: a tag, an attribute or `nil`.
unfoldable pub dest_var : Instance → Text → Text
dest_var instance' tag = elim (lookup tag instance'.tags) [
  | some value ↦ value
  | none ↦ elim (lookup tag instance'.attributes) [
    | some value ↦ or_none value
    | none ↦ codes "nil"
  ]
]

-- `format` is `str.format` with positional arguments.
module _ (format : Text → List Text → Result Text) (s : Settings) where
  unfoldable pub plain_destination : Instance → Option Text
  unfolding attribute_or_tag
  plain_destination instance' = elim (truthy instance'.subnet_id) [
    | some _ ↦ attribute_or_tag instance' s.vpc_destination_variable
    | none ↦ attribute_or_tag instance' s.destination_variable
  ]

  unfoldable pub formatted : Option Text → List Text → Instance → Result (Option Text)
  unfolding dest_var plain_destination
  formatted (some pattern') (tag ∷ tags) instance' = do
    dest ← format pattern' (map (dest_var instance') (tag ∷ tags))
    ok (some dest)
  formatted pattern' tags instance' = ok (plain_destination instance')

  -- `dest`; `none` where the instance cannot be addressed
  unfoldable pub destination : Instance → Result (Option Text)
  unfolding formatted
  destination instance' = do
    dest ← formatted (truthy s.destination_format) s.destination_format_tags instance'
    ok (truthy dest)

module _ (s : Settings) where
  -- The name that the settings ask for.
  unfoldable pub configured_name : Dict Text Text → Dict Text (Option Text) → Result (Option Text)
  configured_name tags attributes = elim (truthy s.hostname_variable) [
    | none ↦ ok none
    | some variable ↦
        if starts_with (codes "tag_") variable
        then ok (lookup (drop 4 variable) tags)
        else elim (lookup variable attributes) [
          | none ↦ raise attribute_error
          | some value ↦ ok value
        ]
  ]

  -- The last of the Route53 names with the configured ending, if there is one.
  unfoldable pub route53_name : Text → List Text → Option Text → Option Text
  unfolding ends_with
  route53_name suffix [] hostname = hostname
  route53_name suffix (name ∷ names) hostname =
      route53_name suffix names (if ends_with suffix name then some name else hostname)

  -- `self.route53_enabled and self.route53_hostnames`
  unfoldable pub route53_suffix : Option Text
  route53_suffix = if s.route53_enabled then truthy s.route53_hostnames else none

  -- The name in the form that goes into the inventory.
  unfoldable pub normalize : Option Text → Text → Text
  normalize none hostname = lower (safe s hostname)
  normalize (some suffix) hostname =
      if ends_with suffix hostname then lower hostname else lower (safe s hostname)

  unfoldable pub inventory_name : Option Text → Text → Text
  unfolding normalize route53_suffix
  inventory_name none dest = dest
  inventory_name (some hostname) dest = normalize route53_suffix hostname

  unfoldable pub with_route53 : Option Text → List Text → Option Text → Option Text
  unfolding route53_name
  with_route53 none names hostname = hostname
  with_route53 (some suffix) names hostname = route53_name suffix names hostname

  abbrev matches : Option (Text → Bool) → Bool → Text → Bool
  matches none otherwise hostname = otherwise
  matches (some match') otherwise hostname = match' hostname

  -- The two patterns for hosts.
  unfoldable pub selected : Text → Bool
  selected hostname =
      matches s.pattern_include true hostname && not (matches s.pattern_exclude false hostname)

-- `get_instance_route53_names`: the names of the records for four attributes of the instance.
unfoldable pub add_names : List Text → List Text → List Text
add_names names [] = names
add_names names (name ∷ more) =
    add_names (if contains names name then names else names ++ name ∷ []) more

unfoldable pub record_names : Dict Text (List Text) → Option (Option Text) → List Text
record_names records (some (some value)) = elim (lookup value records) [
  | none ↦ []
  | some names ↦ names
]
record_names records _ = []

unfoldable pub names_for :
    Dict Text (List Text) → Dict Text (Option Text) → List Text → List Text → List Text
unfolding add_names record_names
names_for records attributes [] names = names
names_for records attributes (attrib ∷ attribs) names =
    names_for records attributes attribs
      (add_names names (record_names records (lookup attrib attributes)))

abbrev pub instance_attributes : List Text
instance_attributes =
    codes "public_dns_name"
    ∷ codes "private_dns_name"
    ∷ codes "ip_address"
    ∷ codes "private_ip_address"
    ∷ []

unfoldable pub get_instance_route53_names : Settings → Dict Text (List Text) → Instance → List Text
unfolding names_for
get_instance_route53_names s records instance' =
    s.set_list (names_for records instance'.attributes instance_attributes [])
