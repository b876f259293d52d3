-- ===== src/Web/ChatTurns.antt =====
-- What becomes of the turns of the chat with the parrot.
use faf_hackathon_challenge.Prelude.{
  ℕ, zero, suc, not, ◌||◌, Bool, false, arith, String, true, ◌≡◌, refl, ◌⊎◌, inl, inr, ap, ◌∙◌, sym,
  Option, none, some, List, [], ◌∷◌, ◌++◌, append-nil, Bool-cases, eq_refl, truthy,
}
use faf_hackathon_challenge.Values.Text.{trim}
use faf_hackathon_challenge.Web.Chat.{
  assistant, PendingTurn, FailedTurn, message_item, thinking_item, error_item, pending_key,
  thinking_key, failed_key, error_key, user_message, history_of, on_failure, Chat, no_chat, submit,
  send_as, send_message, retry_as, retry_failed_message, history_items, thread_items, ChatEvent,
  sends, retries, succeeds, fails, loads, logs_in, turn_at, remove_at, finished, settle, on_success,
  react, react_all,
}

-- The turn on display, as a list.
abbrev pub shown_turns : Option PendingTurn → List PendingTurn
shown_turns none = []
shown_turns (some turn) = turn ∷ []

abbrev pub is_some : Option PendingTurn → Bool
is_some none = false
is_some (some turn) = true

-- The turn on display is that of the one request under way, if there is any, and while there is one
-- no other is shown as failed.
pub record IsInStep (c : Chat) : Type 0 where
  pub pending : c.under_way ≡ shown_turns c.pending_turn
  pub told : c.is_pending ≡ is_some c.pending_turn
  pub one_of : (c.pending_turn ≡ none) ⊎ (c.failed_turn ≡ none)

idle_turn : (o : Option PendingTurn) → false ≡ is_some o → o ≡ none
idle_turn none h = refl
idle_turn (some turn) h = cc

submit-IsInStep :
    (turn : PendingTurn) (c : Chat) → c.is_pending ≡ false → IsInStep c → IsInStep (submit turn c)
submit-IsInStep turn c idle h =
    let none_shown = idle_turn c.pending_turn (sym idle ∙ h.told) in
    record {
      pending = ap (λ turns. turn ∷ turns) (h.pending ∙ ap shown_turns none_shown);
      told = refl;
      one_of = inr refl;
    }

send_as-IsInStep :
    (p : Option String) (b : Bool) (trimmed local_id : String) (c : Chat)
    → c.is_pending ≡ b
    → IsInStep c
    → IsInStep (send_as p b trimmed local_id c)
send_as-IsInStep none b trimmed local_id c e h = h
send_as-IsInStep (some g) b trimmed local_id c e h =
    elim (Bool-cases (not (truthy g) || (not (truthy trimmed) || b))) [
      | inl refused ↦ rw refused h
      | inr free ↦
          let idle : c.is_pending ≡ false = ground arith in rw free (submit-IsInStep _ c idle h)
    ]

retry_as-IsInStep :
    (p : Option String) (b : Bool) (f : Option FailedTurn) (c : Chat)
    → c.is_pending ≡ b
    → IsInStep c
    → IsInStep (retry_as p b f c)
retry_as-IsInStep none b none c e h = h
retry_as-IsInStep none b (some f) c e h = h
retry_as-IsInStep (some g) b none c e h = h
retry_as-IsInStep (some g) b (some failed) c e h = elim (Bool-cases (not (truthy g) || b)) [
  | inl refused ↦ rw refused h
  | inr free ↦
      let idle : c.is_pending ≡ false = ground arith in rw free (submit-IsInStep _ c idle h)
]

-- The turn that is the only one is at the first place, and after it none is left.
only_one :
    (n : ℕ) (o : Option PendingTurn) (turn : PendingTurn)
    → turn_at n (shown_turns o) ≡ some turn
    → (n ≡ 0) × (remove_at n (shown_turns o) ≡ [])
only_one n none turn h = cc
only_one zero (some t) turn h = (refl, refl)
only_one (suc n) (some t) turn h = cc

-- A callback that shows no turn as pending any more, and leaves the requests to `settle`.
record IsEnding (f : PendingTurn → Chat → Chat) : Type 0 where
  ends : (turn : PendingTurn) (c : Chat) → (f turn c).pending_turn ≡ none
  keeps : (turn : PendingTurn) (c : Chat) → (f turn c).under_way ≡ c.under_way

ended-IsInStep :
    (n : ℕ) (c : Chat)
    → n ≡ 0
    → remove_at n c.under_way ≡ []
    → c.pending_turn ≡ none
    → IsInStep (finished n c)
ended-IsInStep n c first left ended = record {
  pending = left ∙ ap shown_turns (sym ended);
  told = rw (first, ended) refl;
  one_of = inl ended;
}

settle-IsInStep :
    (f : PendingTurn → Chat → Chat) (n : ℕ) (o : Option PendingTurn) (c : Chat)
    → IsEnding f
    → turn_at n c.under_way ≡ o
    → IsInStep c
    → IsInStep (settle f n o c)
settle-IsInStep f n none c each e h = h
settle-IsInStep f n (some turn) c each e h =
    let (first, left) = only_one n c.pending_turn turn (ap (turn_at n) (sym h.pending) ∙ e) in
    ended-IsInStep n (f turn c) first (ap (remove_at n) (each.keeps turn c ∙ h.pending) ∙ left)
      (each.ends turn c)

react-IsInStep : (e : ChatEvent) (c : Chat) → IsInStep c → IsInStep (react e c)
unfolding react send_message retry_failed_message
react-IsInStep (sends message local_id) c h =
    send_as-IsInStep c.participant_id c.is_pending (trim message) local_id c refl h
react-IsInStep retries c h = retry_as-IsInStep c.participant_id c.is_pending c.failed_turn c refl h
react-IsInStep (succeeds n reply) c h =
    settle-IsInStep (λ turn. on_success turn reply) n (turn_at n c.under_way) c
      (record { ends = λ turn d. refl; keeps = λ turn d. refl }) refl h
react-IsInStep (fails n error) c h =
    settle-IsInStep (λ turn. on_failure turn error) n (turn_at n c.under_way) c
      (record { ends = λ turn d. refl; keeps = λ turn d. refl }) refl h
react-IsInStep (loads g history) c h = record {
  pending = h.pending;
  told = h.told;
  one_of = h.one_of;
}
react-IsInStep (logs_in g) c h = record { pending = h.pending; told = h.told; one_of = h.one_of }

react_all-IsInStep_from : (es : List ChatEvent) (c : Chat) → IsInStep c → IsInStep (react_all es c)
unfolding react_all
react_all-IsInStep_from [] c h = h
react_all-IsInStep_from (e ∷ es) c h = react_all-IsInStep_from es (react e c) (react-IsInStep e c h)

-- Whatever happens in the chat, in whatever order requests end, at most one is under way; the turn that
-- is shown as pending is the one whose request is under way, and none is shown where there is none; and
-- no turn is shown as failed while a request is under way.
pub react_all-IsInStep : (es : List ChatEvent) → IsInStep (react_all es no_chat)
react_all-IsInStep es =
    react_all-IsInStep_from es no_chat (record { pending = refl; told = refl; one_of = inl refl })

-- A guest who may send: logged in, with no request under way.
pub record MaySend (g : String) (c : Chat) : Type 0 where
  pub participant : c.participant_id ≡ some g
  pub named : truthy g ≡ true
  pub idle : c.is_pending ≡ false
  pub unasked : c.under_way ≡ []

abbrev turn_of : String → String → String → PendingTurn
turn_of g message local_id = record { guest_id = g; message = trim message; local_id = local_id }

sent :
    (g message local_id : String) (c : Chat)
    → MaySend g c
    → truthy (trim message) ≡ true
    → send_message message local_id c ≡ submit (turn_of g message local_id) c
unfolding send_message
sent g message local_id c h said = rw (h.participant, h.idle) (rw (h.named, said) refl)

retried :
    (g message local_id error : String) (c : Chat)
    → MaySend g c
    → retry_failed_message (
        finished 0
          (on_failure (turn_of g message local_id) error (submit (turn_of g message local_id) c)))
      ≡ submit (turn_of g message local_id) c
unfolding retry_failed_message
retried g message local_id error c h = rw h.participant (rw h.named (rw (← h.participant) refl))

-- A message that fails and is tried again with success leaves the chat as one that succeeds at
-- once, for a guest who is logged in with no request under way and a message that is not blank.
react_all_retry :
    (g message local_id error reply : String) (c : Chat)
    → MaySend g c
    → truthy (trim message) ≡ true
    → react_all (sends message local_id ∷ fails 0 error ∷ retries ∷ succeeds 0 reply ∷ []) c
      ≡ react_all (sends message local_id ∷ succeeds 0 reply ∷ []) c
unfolding react_all react
react_all_retry g message local_id error reply c h said =
    let first = sent g message local_id c h said in
    ap (react_all (fails 0 error ∷ retries ∷ succeeds 0 reply ∷ [])) first
    ∙ ap (react (succeeds 0 reply)) (retried g message local_id error c h)
    ∙ sym (ap (react (succeeds 0 reply)) first)

-- What the guest sees of a message that is not blank, sent when no request is under way: after the
-- history, the message and a sign that the parrot thinks; after a failure the message and the
-- error; after a success the history alone, which has grown by the message and the reply.
thread_items-turn :
    (g message local_id error reply : String) (c : Chat)
    → MaySend g c
    → truthy (trim message) ≡ true
    → (thread_items (react (sends message local_id) c)
        ≡ history_items (history_of (some g) c) 0
          ++ message_item (pending_key local_id) (user_message (turn_of g message local_id))
            ∷ thinking_item (thinking_key local_id)
            ∷ [])
      × (thread_items (react_all (sends message local_id ∷ fails 0 error ∷ []) c)
          ≡ history_items (history_of (some g) c) 0
            ++ message_item (failed_key local_id) (user_message (turn_of g message local_id))
              ∷ error_item (error_key local_id) (trim message) error
              ∷ [])
      × (thread_items (react_all (sends message local_id ∷ succeeds 0 reply ∷ []) c)
          ≡ history_items
              (history_of (some g) c
                ++ user_message (turn_of g message local_id)
                  ∷ record { content = some reply; role = assistant }
                  ∷ [])
              0)
unfolding react_all react thread_items
thread_items-turn g message local_id error reply c h said =
    let first = sent g message local_id c h said in
    (
      ap thread_items first ∙ rw h.participant (rw (eq_refl g) refl),
      ap (λ s. thread_items (react (fails 0 error) s)) first
          ∙ rw h.participant (rw (eq_refl g) refl),
      ap (λ s. thread_items (react (succeeds 0 reply) s)) first
          ∙ rw h.participant (rw (eq_refl g) (append-nil _)),
    )
