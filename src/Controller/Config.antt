-- ===== src/Controller/Config.antt =====
-- src/controller/Controller.cpp: `loadPolicies`, `checkPolicyUpdate`, and the constructor. The file system
-- and the JSON library are parameters: what they answer for configs/policy.json.
use stradvision.Bytes.{◌>>=◌}
use stradvision.Common.{
  ℕ, Bool, List, Option, [], codes, false, if◌then◌else◌, ltb, none, some, true, ◌&&◌, ◌++◌, ◌==◌,
  ◌∷◌,
}
use stradvision.Controller.{Controller, ControllerCall, Policy, checks_in, do_accept}
use stradvision.Message.{MessageType, cmd_set_mode}
use stradvision.Pool.{MessagePool}

-- The texts and numbers of one entry of "policies".
pub record RawPolicy : Type 0 where
  pub name : List ℕ
  pub metric : List ℕ
  pub operator : List ℕ
  pub threshold : ℕ
  pub command_text : List ℕ
  pub mode : ℕ

-- `none` stands for an exception: of `exists`, of `last_write_time`, of opening and parsing the file, and
-- of the accesses to one entry.
pub record PolicyFile : Type 0 where
  pub is_there : Option Bool
  pub write_time : Option ℕ
  pub entries : Option (List (Option RawPolicy))

abbrev pub same_text : List ℕ → List ℕ → Bool
same_text [] [] = true
same_text [] (_ ∷ _) = false
same_text (_ ∷ _) [] = false
same_text (x ∷ xs) (y ∷ ys) = (x == y) && same_text xs ys

-- A command of another name leaves `action.command` without a value: `unset` is what is found there.
unfoldable pub to_policy : MessageType → RawPolicy → Policy
to_policy unset p = record {
  name = p.name;
  condition = record { metric = p.metric; op = p.operator; threshold = p.threshold };
  action = record {
    command = if same_text p.command_text (codes "CMD_SET_MODE") then cmd_set_mode else unset;
    mode = p.mode;
  };
}

-- The first loop of `loadPolicies`.
unfoldable pub to_policies : MessageType → List (Option RawPolicy) → Option (List Policy)
to_policies unset [] = some []
to_policies unset (raw ∷ raws) = do
  p ← raw
  ps ← to_policies unset raws
  some (to_policy unset p ∷ ps)

abbrev pub read_entries : MessageType → Option (List (Option RawPolicy)) → Option (List Policy)
read_entries unset none = none
read_entries unset (some raws) = to_policies unset raws

abbrev pub set_time : Option ℕ → Controller → Controller
set_time none c = c
set_time (some t) c = record c { last_policy_file_time = t }

abbrev pub set_policies : Option ℕ → Option (List Policy) → Controller → Controller
set_policies time none c = c
set_policies time (some ps) c = set_time time (record c { policies = ps })

abbrev pub is_true : Option Bool → Bool
is_true none = false
is_true (some b) = b

-- An exception ends in the `catch`, with what was done before it.
unfoldable pub load_policies : MessageType → PolicyFile → Controller → Controller
load_policies unset file c =
    if is_true file.is_there
    then set_policies file.write_time (read_entries unset file.entries) c
    else c

abbrev pub is_newer : Option ℕ → ℕ → Bool
is_newer none last = false
is_newer (some t) last = ltb last t

unfoldable pub check_policy_update : MessageType → PolicyFile → Controller → Controller
check_policy_update unset file c =
    if is_true file.is_there && is_newer file.write_time c.last_policy_file_time
    then load_policies unset file c
    else c

unfoldable pub start_health_check : Controller → List ControllerCall
start_health_check c = if c.is_shutting_down then [] else checks_in 2 ∷ []

-- The constructor, with the message pool as it is found. `unset_time` is the file time that a
-- `file_time_type` starts with.
unfoldable pub create :
    MessageType → PolicyFile → ℕ → MessagePool → Controller × List ControllerCall
create unset file unset_time messages =
    let c = load_policies unset file (record {
      sessions = [];
      contexts = [];
      created = 0;
      messages = messages;
      states = [];
      policies = [];
      last_policy_file_time = unset_time;
      message_counters = [];
      overload_mode = false;
      is_shutting_down = false;
      tracker = record {
        active_connections = 0;
        command_failures = 0;
        total_rtt_ms = 0;
        rtt_samples = 0;
      };
      has_metrics_server = true;
    }) in
    (c, do_accept c ++ start_health_check c)
