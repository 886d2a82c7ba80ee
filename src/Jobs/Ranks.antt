-- ===== src/Jobs/Ranks.antt =====
-- accelerator_agent/src/job_details.cc: the ranks of a job, and the registry of its nexuses. A shared
-- pointer to a nexus is a number; what it points to is given where it is read.
use multi_agent_accelerator.Jobs.Entries.{FunctionEntry}
use multi_agent_accelerator.Prelude.{
  Bool, List, Option, Text, [], codes, equal_range, false, for_each_key, if◌then◌else◌, length, ltb,
  map, none, some, suc, zero, ℕ, ◌%◌, ◌++◌, ◌+◌, ◌/◌, ◌>>=◌, ◌∷◌,
}
use multi_agent_accelerator.Resource.{Header, g_func_map, index}

-- `rank_desc::rank_phase`
pub data RankPhase : Type 0 where
  pending requested claimed transfering lost deactivated : RankPhase

abbrev pub phase_index : RankPhase → ℕ
phase_index pending = 0
phase_index requested = 1
phase_index claimed = 2
phase_index transfering = 3
phase_index lost = 4
phase_index deactivated = 5

-- `rank_desc::rank_types`
pub data RankType : Type 0 where
  accel cpu : RankType

abbrev pub type_index : RankType → ℕ
type_index accel = 0
type_index cpu = 1

-- `rank_desc` and `rank_interface`
pub record RankDesc : Type 0 where
  pub activation : Bool
  pub priority : ℕ
  pub alloc_addr : Text × Text
  pub pico_addr : Option Text
  pub hw_addr : Text
  pub intf : Text
  pub owning_rank : ℕ
  pub global_id : ℕ
  pub type : RankType
  pub phase : RankPhase
  pub claim_id : Option ℕ
  pub group_id : Option ℕ
  pub func_details : Option FunctionEntry

-- What the memory of a new rank holds where no constructor writes.
pub record Memory : Type 0 where
  pub activation : Bool
  pub priority : ℕ
  pub global_id : ℕ

abbrev pub rank_desc : Memory → ℕ → RankType → Option FunctionEntry → RankDesc
rank_desc memory owner rank_t f_entry = record {
  activation = memory.activation;
  priority = memory.priority;
  alloc_addr = ([], []);
  pico_addr = none;
  hw_addr = [];
  intf = [];
  owning_rank = owner;
  global_id = memory.global_id;
  type = rank_t;
  phase = pending;
  claim_id = none;
  group_id = none;
  func_details = f_entry;
}

abbrev pub set_alloc_addr : Text → Text → RankDesc → RankDesc
set_alloc_addr nex_addr pico_id rank = record rank { alloc_addr = (nex_addr, pico_id) }

abbrev pub update_global_id : ℕ → ℕ → RankDesc → RankDesc
update_global_id group_id global_id rank = record rank {
  group_id = some group_id;
  global_id = global_id;
}

abbrev pub set_phase : RankPhase → RankDesc → RankDesc
set_phase rp rank = record rank { phase = rp }

-- `get_ggid`: `value` of an empty optional throws.
abbrev pub get_ggid : RankDesc → Option (ℕ × ℕ)
get_ggid rank = do group ← rank.group_id; some (group, rank.global_id)

-- `operator==` of a rank and a key to look for: the result is computed, and false is returned.
abbrev pub rank_equals : Text → RankDesc → Bool
rank_equals lookup entry = false

-- `std::to_string`, digits from the back; a number has fewer digits than its successor.
pub decimal : ℕ → ℕ → Text → Text
decimal zero n acc = acc
decimal (suc fuel) n acc =
    let longer = decimal fuel (n / 10) ((48 + n % 10) ∷ acc) in
    if ltb n 10 then (48 + n) ∷ acc else longer

unfoldable pub to_decimal : ℕ → Text
unfolding decimal
to_decimal n = decimal (suc n) n []

abbrev pub of_flag : Bool → Text
of_flag b = if b then codes "1" else codes "0"

abbrev pub insert_var : Text → Text → List Text
insert_var key val = (key ++ b'=' ∷ val) ∷ []

abbrev pub insert_option {ℓ} : {A : Type ℓ} → (A → List Text) → Option A → List Text
insert_option f none = []
insert_option f (some a) = f a

-- `flattened_map`: for each key its values, with commas between them.
abbrev pub comma_sep : Text → List Text → Text
comma_sep str [] = str
comma_sep str (val ∷ vals) = comma_sep (str ++ b',' ∷ val) vals

abbrev pub flat_line : Text → List Text → Text
flat_line skey [] = skey
flat_line skey (val ∷ vals) = comma_sep (skey ++ b'=' ∷ val) vals

unfoldable pub flattened_map : List (Header × Text) → Option (List Text)
flattened_map m =
    for_each_key index (λ en ll. ll ++ flat_line (g_func_map en.0) (equal_range index en.0 m) ∷ [])
      m (length m) m []

-- The same over a map, where each key has one value.
abbrev pub flattened_attrs : List (Text × Text) → List Text
flattened_attrs attrs = map (λ (en : Text × Text). en.0 ++ b'=' ∷ en.1) attrs

-- `serialize` of a rank and of its function, which must be there.
unfoldable pub serialize : RankDesc → Option (List Text × List Text × List Text)
unfolding flattened_map to_decimal
serialize rank = do
  fe ← rank.func_details
  derived ← flattened_map fe.header_desc
  some (
    insert_var (codes "alloc_addr") (rank.alloc_addr.0 ++ b',' ∷ rank.alloc_addr.1)
        ++ insert_option (insert_var (codes "pico_addr")) rank.pico_addr
        ++ insert_var (codes "hw_addr") rank.hw_addr
        ++ insert_var (codes "intf") rank.intf
        ++ insert_var (codes "activation") (of_flag rank.activation)
        ++ insert_var (codes "priority") (to_decimal rank.priority)
        ++ insert_var (codes "owner_rank") (to_decimal rank.owning_rank)
        ++ insert_var (codes "GlobalId") (to_decimal rank.global_id)
        ++ insert_var (codes "Type") (to_decimal (type_index rank.type))
        ++ insert_var (codes "rank_phase") (to_decimal (phase_index rank.phase))
        ++ insert_option (λ g. insert_var (codes "GroupID") (to_decimal g)) rank.group_id
        ++ insert_option (λ c. insert_var (codes "ClaimID") (to_decimal c)) rank.claim_id,
    flattened_attrs fe.attrs,
    derived,
  )

-- `jd_registry_type`: whether the nexus has been updated, the nexus, and its ranks
pub record RegistryEntry : Type 0 where
  pub updated : Bool
  pub nex : ℕ
  pub ranks : List RankDesc
