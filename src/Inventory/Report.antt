-- ===== src/Inventory/Report.antt =====
-- ops/ansible/ec2.py: what a refused call writes before the program exits, and the whole of
-- `get_instances_by_region`. `env` is the environment, and `is_file` tells of a path after
-- `expanduser`.
pub mod Listed
use reliable_broadcast.Prelude.{
  ℕ, Bool, true, false, not, ◌&&◌, ◌||◌, Option, none, some, List, [], ◌∷◌, ◌++◌, list_eq, nat_eq,
  ◌==◌, if◌then◌else◌, Text, codes, is_some,
}
use reliable_broadcast.Result.{Result, Error, raise, ok}
use reliable_broadcast.Inventory.Settings.{Settings, Instance, Inventory}
use reliable_broadcast.Inventory.Calls.{
  Answer, server_error, answer, FilterSet, Reservation, Connection, fetch, set_account,
  add_instances,
}

-- `separator.join(parts)`
unfoldable pub join_text : Text → List Text → Text
join_text separator [] = []
join_text separator (part ∷ []) = part
join_text separator (part ∷ next ∷ parts) =
    part ++ (separator ++ join_text separator (next ∷ parts))

unfoldable pub keep : (Text → Bool) → List Text → List Text
keep test [] = []
keep test (x ∷ xs) = if test x then x ∷ keep test xs else keep test xs

abbrev boto_paths : List Text
boto_paths = codes "/etc/boto.cfg" ∷ codes "~/.boto" ∷ codes "~/.aws/credentials" ∷ []

module _ (env : Text → Option Text) (is_file : Text → Bool) where
  unfoldable pub credentials_line : Text
  credentials_line =
      if is_some (env (codes "AWS_ACCESS_KEY_ID")) && is_some (env (codes "AWS_SECRET_ACCESS_KEY"))
      then codes
          " - AWS_ACCESS_KEY_ID and AWS_SECRET_ACCESS_KEY environment vars found but may not be correct"
      else codes " - No AWS_ACCESS_KEY_ID or AWS_SECRET_ACCESS_KEY environment vars found"

  abbrev pub config_line : List Text → Text
  config_line [] =
      codes " - No Boto config found at any expected location '"
      ++ (join_text (codes ", ") boto_paths ++ codes "'")
  config_line (path ∷ paths) =
      codes " - Boto configs found at '"
      ++ (join_text (codes ", ") (path ∷ paths)
          ++ codes "', but the credentials contained may not be correct")

  unfoldable pub get_auth_error_message : Text
  unfolding join_text keep credentials_line
  get_auth_error_message = join_text (10 ∷ []) (
      codes "Authentication error retrieving ec2 inventory."
      ∷ credentials_line
      ∷ config_line (keep is_file boto_paths)
      ∷ [])

-- What `fail_with_error` writes to the standard error; then the program exits with 1.
unfoldable pub fail_with_error : Text → Text → Text
fail_with_error message operation =
    if operation == []
    then message
    else codes "ERROR: \"" ++ (message ++ (codes "\", while: " ++ operation))

-- How a method ends.
pub data Ending : Type 0 where
  exits : Text → Ending
  fails : Error → Ending
  returns : Inventory → Ending

abbrev pub ending : Result Inventory → Ending
ending (raise e) = fails e
ending (ok inventory) = returns inventory

module _ (env : Text → Option Text) (is_file : Text → Bool) (eucalyptus : Bool) where
  unfoldable pub server_error_message : Text → Text → Text
  unfolding get_auth_error_message
  server_error_message code message =
      if code == codes "AuthFailure"
      then get_auth_error_message env is_file
      else codes "Error connecting to "
        ++ ((if eucalyptus then codes "Eucalyptus" else codes "AWS")
            ++ (codes " backend." ++ (10 ∷ message)))

  module _ (format : Text → List Text → Result Text) (s : Settings) (stack_filters : Bool)
      (ec2_instance_filters : List FilterSet) where
    unfoldable pub get_instances_by_region : Connection → Text → Inventory → Ending
    unfolding fetch set_account add_instances server_error_message fail_with_error
    get_instances_by_region conn region inventory =
        elim (fetch stack_filters ec2_instance_filters conn) [
          | server_error code message ↦
              exits (
                fail_with_error (server_error_message code message) (codes "getting EC2 instances"))
          | answer (reservations, instances) ↦
              ending (add_instances format s instances region (set_account reservations inventory))
        ]
