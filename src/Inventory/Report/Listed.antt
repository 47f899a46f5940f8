-- ===== src/Inventory/Report/Listed.antt =====
-- What `get_instances_by_region` of ops/ansible/ec2.py does on each of its branches.
use reliable_broadcast.Prelude.{[], ◌∷◌, Option, some, List, list_eq, nat_eq, Text}
use reliable_broadcast.Result.{Result}
use reliable_broadcast.Inventory.Settings.{Settings, Inventory}
use reliable_broadcast.Inventory.Calls.{Reservation}

-- The account that is known, or that of the first reservation.
abbrev pub account : Option Text → List Reservation → Option Text
account known [] = known
account (some (c ∷ known)) (r ∷ reservations) = some (c ∷ known)
account _ (r ∷ reservations) = some r.owner_id
