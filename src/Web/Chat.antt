-- ===== src/Web/Chat.antt =====
-- frontend/src/features/parrot/hooks/use-parrot-chat.ts with use-parrot-history.ts: the chat with the
-- parrot, the turn that waits for its answer, and the one that failed.
use faf_hackathon_challenge.Prelude.{
  ℕ, zero, suc, ◌==◌, String, Bool, true, false, not, ◌||◌, Option, none, some, List, [], ◌∷◌, ◌++◌,
  if◌then◌else◌, str_eq, truthy,
}
use faf_hackathon_challenge.Values.Text.{trim}

pub data ParrotMessageRole : Type 0 where
  user assistant : ParrotMessageRole

pub record ChatHistoryMessage : Type 0 where
  pub content : Option String
  pub role : ParrotMessageRole

pub record ChatHistoryResponse : Type 0 where
  pub guest_id : String
  pub messages : List ChatHistoryMessage

pub record PendingTurn : Type 0 where
  pub guest_id : String
  pub message : String
  pub local_id : String

pub record FailedTurn : Type 0 where
  pub turn : PendingTurn
  pub error : String

-- The key of an item: the text before its first colon is the constructor.
pub data ItemKey : Type 0 where
  message_key : ParrotMessageRole → Option String → ℕ → ItemKey
  pending_key thinking_key failed_key error_key : String → ItemKey

pub data ParrotThreadItem : Type 0 where
  message_item : ItemKey → ChatHistoryMessage → ParrotThreadItem
  thinking_item : ItemKey → ParrotThreadItem
  -- the prompt and the error's text
  error_item : ItemKey → String → String → ParrotThreadItem

-- The state of the hook: the logged-in guest, the query cache by guest, the two turns, the requests
-- under way by their variables, the newest first, and `mutation.isPending`, which is about the newest
-- that was ever sent.
pub record Chat : Type 0 where
  pub participant_id : Option String
  pub histories : String → Option ChatHistoryResponse
  pub pending_turn : Option PendingTurn
  pub failed_turn : Option FailedTurn
  pub under_way : List PendingTurn
  pub is_pending : Bool

abbrev pub no_chat : Chat
no_chat = record {
  participant_id = none;
  histories = λ g. none;
  pending_turn = none;
  failed_turn = none;
  under_way = [];
  is_pending = false;
}

abbrev pub messages_of : Option ChatHistoryResponse → List ChatHistoryMessage
messages_of none = []
messages_of (some history) = history.messages

abbrev pub guest_of : Option ChatHistoryResponse → PendingTurn → String
guest_of none turn = turn.guest_id
guest_of (some history) turn = history.guest_id

abbrev pub user_message : PendingTurn → ChatHistoryMessage
user_message turn = record { content = some turn.message; role = user }

abbrev pub append_messages_to_history :
    Option ChatHistoryResponse → PendingTurn → String → ChatHistoryResponse
append_messages_to_history previous turn reply = record {
  guest_id = guest_of previous turn;
  messages =
      messages_of previous
      ++ user_message turn ∷ record { content = some reply; role = assistant } ∷ [];
}

-- `onSuccess`, for the variables of the mutation.
abbrev pub on_success : PendingTurn → String → Chat → Chat
on_success turn reply c = record c {
  histories = λ g.
      if str_eq g turn.guest_id
      then some (append_messages_to_history (c.histories turn.guest_id) turn reply)
      else c.histories g;
  pending_turn = none;
  failed_turn = none;
}

abbrev pub on_failure : PendingTurn → String → Chat → Chat
on_failure turn error c = record c {
  pending_turn = none;
  failed_turn = some (record { turn = turn; error = error });
}

abbrev pub submit : PendingTurn → Chat → Chat
submit turn c = record c {
  pending_turn = some turn;
  failed_turn = none;
  under_way = turn ∷ c.under_way;
  is_pending = true;
}

abbrev pub send_as : Option String → Bool → String → String → Chat → Chat
send_as none is_pending trimmed local_id c = c
send_as (some guest_id) is_pending trimmed local_id c =
    if not (truthy guest_id) || (not (truthy trimmed) || is_pending)
    then c
    else submit (record { guest_id = guest_id; message = trimmed; local_id = local_id }) c

-- `local_id` is what `crypto.randomUUID()` gives.
unfoldable pub send_message : String → String → Chat → Chat
send_message message local_id c = send_as c.participant_id c.is_pending (trim message) local_id c

abbrev pub retry_as : Option String → Bool → Option FailedTurn → Chat → Chat
retry_as (some guest_id) is_pending (some failed) c =
    if not (truthy guest_id) || is_pending
    then c
    else submit (record failed.turn { guest_id = guest_id }) c
retry_as _ is_pending _ c = c

unfoldable pub retry_failed_message : Chat → Chat
retry_failed_message c = retry_as c.participant_id c.is_pending c.failed_turn c

abbrev pub history_items : List ChatHistoryMessage → ℕ → List ParrotThreadItem
history_items [] i = []
history_items (m ∷ ms) i =
    message_item (message_key m.role m.content i) m ∷ history_items ms (suc i)

-- `turn.guestId === participantId`
abbrev pub is_of : Option String → PendingTurn → Bool
is_of none turn = false
is_of (some g) turn = str_eq turn.guest_id g

abbrev pub pending_items : Option String → Option PendingTurn → List ParrotThreadItem
pending_items participant none = []
pending_items participant (some turn) =
    if is_of participant turn
    then message_item (pending_key turn.local_id) (user_message turn)
      ∷ thinking_item (thinking_key turn.local_id)
      ∷ []
    else []

abbrev pub failed_items : Option String → Option FailedTurn → List ParrotThreadItem
failed_items participant none = []
failed_items participant (some failed) =
    if is_of participant failed.turn
    then message_item (failed_key failed.turn.local_id) (user_message failed.turn)
      ∷ error_item (error_key failed.turn.local_id) failed.turn.message failed.error
      ∷ []
    else []

-- The messages of the participant's history in the cache.
abbrev pub history_of : Option String → Chat → List ChatHistoryMessage
history_of none c = []
history_of (some g) c = messages_of (c.histories g)

unfoldable pub thread_items : Chat → List ParrotThreadItem
thread_items c =
    history_items (history_of c.participant_id c) 0
    ++ (pending_items c.participant_id c.pending_turn
        ++ failed_items c.participant_id c.failed_turn)

pub data ChatEvent : Type 0 where
  -- a message under a new id, and a click on the failed one
  sends : String → String → ChatEvent
  retries : ChatEvent
  -- the end of a request under way, by its place, with the reply or the error's message
  succeeds fails : ℕ → String → ChatEvent
  -- a history that was fetched, and another guest or none who logs in
  loads : String → ChatHistoryResponse → ChatEvent
  logs_in : Option String → ChatEvent

abbrev pub turn_at : ℕ → List PendingTurn → Option PendingTurn
turn_at n [] = none
turn_at zero (turn ∷ turns) = some turn
turn_at (suc n) (turn ∷ turns) = turn_at n turns

abbrev pub remove_at : ℕ → List PendingTurn → List PendingTurn
remove_at n [] = []
remove_at zero (turn ∷ turns) = turns
remove_at (suc n) (turn ∷ turns) = turn ∷ remove_at n turns

-- The request is no more under way; if the newest is, `isPending` is about it.
abbrev pub finished : ℕ → Chat → Chat
finished n c = record c {
  under_way = remove_at n c.under_way;
  is_pending = if n == 0 then false else c.is_pending;
}

-- The callback of one request, with its own variables.
abbrev pub settle : (PendingTurn → Chat → Chat) → ℕ → Option PendingTurn → Chat → Chat
settle f n none c = c
settle f n (some turn) c = finished n (f turn c)

unfoldable pub react : ChatEvent → Chat → Chat
unfolding send_message retry_failed_message
react (sends message local_id) c = send_message message local_id c
react retries c = retry_failed_message c
react (succeeds n reply) c = settle (λ turn. on_success turn reply) n (turn_at n c.under_way) c
react (fails n error) c = settle (λ turn. on_failure turn error) n (turn_at n c.under_way) c
react (loads g history) c = record c {
  histories = λ k. if str_eq k g then some history else c.histories k;
}
react (logs_in g) c = record c { participant_id = g }

unfoldable pub react_all : List ChatEvent → Chat → Chat
react_all [] c = c
react_all (e ∷ es) c = react_all es (react e c)
