-- ===== src/Conversation/Manager.antt =====
-- `ConversationTurnManager` (python/tom/voice/turn_manager.py) with the records of
-- python/tom/schemas/turn.py and their limits. A text that is too long is an error of the record's
-- class, which leaves what was done before. The clock and the identifier of a turn are not kept or
-- are arguments; `strip` and slices of texts are parameters.
use tom.Prelude.{
  ℕ, ◌+◌, ◌*◌, String, Bool, ◌&&◌, Option, none, some, List, [], ◌∷◌, ◌++◌, length, ltb, leb,
  if◌then◌else◌,
}
use tom.Dict.{Dict, put}
use tom.Streaming.Boundaries.{codes}

pub data EntityKind : Type 0 where
  file directory memory screen task tool query app generic : EntityKind

pub record EntityReferent : Type 0 where
  pub name : String
  pub kind : EntityKind
  pub label : String
  pub value : String
  pub turn_id : String

pub data TurnStatus : Type 0 where
  completed interrupted : TurnStatus

pub record TurnRecord : Type 0 where
  pub turn_id : String
  pub turn_index : ℕ
  pub user_text : String
  pub assistant_text : String
  pub status : TurnStatus
  pub tool_names : List String
  pub referents : Dict EntityReferent

pub record TurnContext : Type 0 where
  pub turn_id : String
  pub turn_index : ℕ
  pub user_text : String
  pub planned_tools : List String
  pub referents : Dict EntityReferent
  pub history : List TurnRecord

pub record ConversationTurnManager : Type 0 where
  pub max_history_turns : ℕ
  pub history : List TurnRecord
  pub referents : Dict EntityReferent
  pub current : Option TurnContext
  pub turn_counter : ℕ

abbrev pub new : ℕ → ConversationTurnManager
new n = record {
  max_history_turns = n;
  history = [];
  referents = [];
  current = none;
  turn_counter = 0;
}

-- The number of characters.
abbrev pub size : String → ℕ
size s = length (codes s)

abbrev pub drop_first : List TurnRecord → List TurnRecord
drop_first [] = []
drop_first (r ∷ rs) = rs

-- deque.append, with the greatest length.
unfoldable pub append : ℕ → TurnRecord → List TurnRecord → List TurnRecord
append n r rs = if ltb (length rs) n then rs ++ r ∷ [] else drop_first (rs ++ r ∷ [])

-- dict.update
unfoldable pub update : Dict EntityReferent → Dict EntityReferent → Dict EntityReferent
update d [] = d
update d ((k, v) ∷ kvs) = update (put d k v) kvs

-- The limits of `TurnContext`.
unfoldable pub fits_context : TurnContext → Bool
fits_context c =
    leb c.turn_index (1000 * 1000)
    && leb (size c.user_text) 8000
    && leb (length c.planned_tools) 64
    && leb (length c.history) 64

unfoldable pub start_turn :
    String
    → String
    → List String
    → Dict EntityReferent
    → ConversationTurnManager
    → ConversationTurnManager × Option TurnContext
unfolding update fits_context
start_turn id user_text planned_tools given m =
    let m' = record m { turn_counter = m.turn_counter + 1; referents = update m.referents given } in
    let c : TurnContext = record {
      turn_id = id;
      turn_index = m'.turn_counter;
      user_text = user_text;
      planned_tools = planned_tools;
      referents = m'.referents;
      history = m'.history;
    } in
    if fits_context c then (record m' { current = some c }, some c) else (m', none)

-- The limits of `EntityReferent`.
unfoldable pub fits_referent : EntityReferent → Bool
fits_referent r =
    leb 1 (size r.name)
    && leb (size r.name) 64
    && leb (size r.label) 200
    && leb (size r.value) 2000
    && leb (size r.turn_id) 64

abbrev pub note : EntityReferent → Option TurnContext → Option TurnContext
note r none = none
note r (some c) = some (record c { referents = put c.referents r.name r })

-- A referent is written, if it is within the limits; also into the current context, if that is the
-- one that is given.
unfoldable pub register_referent :
    EntityReferent
    → Bool
    → ConversationTurnManager
    → ConversationTurnManager × Option EntityReferent
unfolding fits_referent
register_referent r of_current m =
    let m' = record m { referents = put m.referents r.name r } in
    if fits_referent r
    then (record m' { current = if of_current then note r m.current else m.current }, some r)
    else (m, none)

abbrev pub unknown_turn : TurnContext
unknown_turn = record {
  turn_id = "turn_unknown";
  turn_index = 0;
  user_text = "";
  planned_tools = [];
  referents = [];
  history = [];
}

abbrev pub context_or : Option TurnContext → Option TurnContext → TurnContext
context_or (some c) current = c
context_or none (some c) = c
context_or none none = unknown_turn

-- The limits of `TurnRecord` that its context does not keep.
unfoldable pub fits_record : TurnRecord → Bool
fits_record r =
    leb 1 (size r.turn_id) && leb (size r.assistant_text) 8000 && leb (length r.tool_names) 64

abbrev pub closing :
    Option TurnContext → String → List String → TurnStatus → ConversationTurnManager → TurnRecord
closing context text tools status m =
    let c = context_or context m.current in
    record {
      turn_id = c.turn_id;
      turn_index = c.turn_index;
      user_text = c.user_text;
      assistant_text = text;
      status = status;
      tool_names = tools;
      referents = m.referents;
    }

-- `_close`
unfoldable pub close :
    Option TurnContext
    → String
    → List String
    → TurnStatus
    → ConversationTurnManager
    → ConversationTurnManager × Option TurnRecord
unfolding fits_record append
close context text tools status m =
    let r = closing context text tools status m in
    if fits_record r
    then (record m { history = append m.max_history_turns r m.history; current = none }, some r)
    else (m, none)

unfoldable pub record_assistant_reply :
    Option TurnContext
    → String
    → List String
    → ConversationTurnManager
    → ConversationTurnManager × Option TurnRecord
unfolding close
record_assistant_reply context text tools m = close context text tools completed m

unfoldable pub interrupt_turn :
    Option TurnContext
    → String
    → ConversationTurnManager
    → ConversationTurnManager × Option TurnRecord
unfolding close
interrupt_turn context text m = close context text [] interrupted m

abbrev pub reset : ConversationTurnManager → ConversationTurnManager
reset m = new m.max_history_turns
