-- ===== src/Transport/History.antt =====
-- cyber/transport/message/history.h, `class History`: the last messages of a writer, for readers that come
-- late. The mutex makes each method one step.
pub mod Depth
use cyberrt_on_rpi.Base.{
  ℕ, Bool, true, false, List, [], ◌∷◌, ◌++◌, ltb, if◌then◌else◌, length, min, Option, none, some,
}

-- A cached message is the pair of a message and its header, here of any type.
pub record History {ℓ} (M : Type ℓ) : Type ℓ where
  pub enabled : Bool
  pub depth : ℕ
  pub max_depth : ℕ
  pub msgs : List M

pub data HistoryPolicy : Type 0 where
  history_keep_last : HistoryPolicy
  history_keep_all : HistoryPolicy

unfoldable pub depth_of : HistoryPolicy → ℕ → ℕ → ℕ
depth_of history_keep_all depth max_depth = max_depth
depth_of history_keep_last depth max_depth = min depth max_depth

-- The limit that the configuration sets, if it does.
unfoldable pub max_depth_of : Option ℕ → ℕ
max_depth_of none = 1000
max_depth_of (some limit) = limit

pub data Op {ℓ} (M : Type ℓ) : Type ℓ where
  enabling : Op M
  disabling : Op M
  adding : M → Op M
  clearing : Op M

module _ {ℓ} {M : Type ℓ} where
  unfoldable pub init_history : Option ℕ → HistoryPolicy → ℕ → History M
  unfolding depth_of max_depth_of
  init_history limit policy depth = record {
    enabled = false;
    depth = depth_of policy depth (max_depth_of limit);
    max_depth = max_depth_of limit;
    msgs = [];
  }

  unfoldable pub enable : History M → History M
  enable h = record h { enabled = true }

  unfoldable pub disable : History M → History M
  disable h = record h { enabled = false }

  -- `while (msgs_.size() > depth_) msgs_.pop_front();`
  unfoldable pub pop_excess : ℕ → List M → List M
  pop_excess depth [] = []
  pop_excess depth (m ∷ ms) =
      let rest = pop_excess depth ms in if ltb depth (length (m ∷ ms)) then rest else m ∷ ms

  unfoldable pub add : M → History M → History M
  unfolding pop_excess
  add m h = if h.enabled then record h { msgs = pop_excess h.depth (h.msgs ++ (m ∷ [])) } else h

  unfoldable pub clear : History M → History M
  clear h = record h { msgs = [] }

  -- What is put in front of the caller's vector.
  unfoldable pub get_cached_message : History M → List M → List M
  get_cached_message h msgs = h.msgs ++ msgs

  unfoldable pub get_size : History M → ℕ
  get_size h = length h.msgs

  unfoldable pub apply : Op M → History M → History M
  unfolding enable disable add clear
  apply enabling h = enable h
  apply disabling h = disable h
  apply (adding m) h = add m h
  apply clearing h = clear h

  unfoldable pub apply_all : List (Op M) → History M → History M
  apply_all [] h = h
  apply_all (op ∷ ops) h = apply_all ops (apply op h)
