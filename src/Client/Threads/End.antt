-- ===== src/Client/Threads/End.antt =====
-- The end of the two threads.
use tcp_chat_server_c.Base.{
  Bool, Bool-cases, List, [], ap, false, inl, inr, none, not, refl, some, true, ◌∙◌, ◌∷◌, ◌≡◌,
}
use tcp_chat_server_c.Client.{Session}
use tcp_chat_server_c.Client.Commands.{FileSystem}
use tcp_chat_server_c.Client.Input.{InputTurn, InputWake, on_wake, reads_on, stops}
use tcp_chat_server_c.Client.Input.Safe.{session_of}
use tcp_chat_server_c.Client.Messages.{MessageTurn, SocketWake, hangs_up, listens, on_socket}
use tcp_chat_server_c.Client.Input.Flag.{Cleared, on_wake-Cleared}
use tcp_chat_server_c.Client.Messages.Flag.{heard_by, on_socket-Cleared}
use tcp_chat_server_c.Client.Threads.{
  ClientEvent, ClientState, client_step, input_event, input_moved, messages_moved, run_client,
  socket_event,
}

-- The threads that have ended stay ended, and the flag that is cleared stays so.
record Later (st st' : ClientState) : Type 0 where
  flag : Cleared st.session → Cleared st'.session
  input : st.input_ended ≡ true → st'.input_ended ≡ true
  messages : st.messages_ended ≡ true → st'.messages_ended ≡ true

not_cleared : (b : Bool) → b ≡ false → not b ≡ true
not_cleared b h = rw h refl

module _ (fs : FileSystem) where
  input_moved-end :
      (st : ClientState) (t : InputTurn)
      → Cleared (session_of t)
      → (input_moved st t).input_ended ≡ true
  unfolding input_moved
  input_moved-end st (reads_on s) h = not_cleared s.client_running h
  input_moved-end st (stops s) h = refl

  messages_moved-end :
      (st : ClientState) (t : MessageTurn)
      → Cleared (heard_by t)
      → (messages_moved st t).messages_ended ≡ true
  unfolding messages_moved
  messages_moved-end st (listens none s) h = not_cleared s.client_running h
  messages_moved-end st (listens (some shown) s) h = not_cleared s.client_running h
  messages_moved-end st (hangs_up s) h = refl

  input_moved-others :
      (st : ClientState) (t : InputTurn)
      → ((input_moved st t).session ≡ session_of t)
        × ((input_moved st t).messages_ended ≡ st.messages_ended)
  unfolding input_moved
  input_moved-others st (reads_on s) = (refl, refl)
  input_moved-others st (stops s) = (refl, refl)

  messages_moved-others :
      (st : ClientState) (t : MessageTurn)
      → ((messages_moved st t).session ≡ heard_by t)
        × ((messages_moved st t).input_ended ≡ st.input_ended)
  unfolding messages_moved
  messages_moved-others st (listens none s) = (refl, refl)
  messages_moved-others st (listens (some shown) s) = (refl, refl)
  messages_moved-others st (hangs_up s) = (refl, refl)

  client_step-Later : (st : ClientState) (e : ClientEvent) → Later st (client_step fs st e)
  unfolding client_step
  client_step-Later st (input_event wake) = elim (Bool-cases st.input_ended) [
    | inl ended' ↦ rw ended' (record { flag = λ h. h; input = λ h. h; messages = λ h. h })
    | inr on ↦
        let (same, kept) = input_moved-others st (on_wake fs st.session wake) in
        rw on (record {
          flag = λ h.
              ap (λ (s : Session). s.client_running) same ∙ on_wake-Cleared fs st.session wake h;
          input = λ h. absurd (cc h);
          messages = λ h. kept ∙ h;
        })
  ]
  client_step-Later st (socket_event wake) = elim (Bool-cases st.messages_ended) [
    | inl ended' ↦ rw ended' (record { flag = λ h. h; input = λ h. h; messages = λ h. h })
    | inr on ↦
        let (same, kept) = messages_moved-others st (on_socket st.session wake) in
        rw on (record {
          flag = λ h.
              ap (λ (s : Session). s.client_running) same ∙ on_socket-Cleared st.session wake h;
          input = λ h. kept ∙ h;
          messages = λ h. absurd (cc h);
        })
  ]

  run_client-Later :
      (events : List ClientEvent) (st : ClientState) → Later st (run_client fs st events)
  unfolding run_client
  run_client-Later [] st = record { flag = λ h. h; input = λ h. h; messages = λ h. h }
  run_client-Later (e ∷ events) st =
      let a = client_step-Later st e in
      let b = run_client-Later events (client_step fs st e) in
      record {
        flag = λ h. b.flag (a.flag h);
        input = λ h. b.input (a.input h);
        messages = λ h. b.messages (a.messages h);
      }

  client_step-input :
      (st : ClientState) (wake : InputWake)
      → Cleared st.session
      → (client_step fs st (input_event wake)).input_ended ≡ true
  unfolding client_step
  client_step-input st wake h = elim (Bool-cases st.input_ended) [
    | inl ended' ↦ rw ended' refl
    | inr on ↦
        rw on
          (input_moved-end st (on_wake fs st.session wake) (on_wake-Cleared fs st.session wake h))
  ]

  client_step-messages :
      (st : ClientState) (wake : SocketWake)
      → Cleared st.session
      → (client_step fs st (socket_event wake)).messages_ended ≡ true
  unfolding client_step
  client_step-messages st wake h = elim (Bool-cases st.messages_ended) [
    | inl ended' ↦ rw ended' refl
    | inr on ↦
        rw on
          (messages_moved-end st (on_socket st.session wake) (on_socket-Cleared st.session wake h))
  ]

-- Each thread has a step.
abbrev pub has_input : List ClientEvent → Bool
has_input [] = false
has_input (input_event wake ∷ events) = true
has_input (socket_event wake ∷ events) = has_input events

abbrev pub has_message : List ClientEvent → Bool
has_message [] = false
has_message (input_event wake ∷ events) = has_message events
has_message (socket_event wake ∷ events) = true

module _ (fs : FileSystem) where
  input-Ends :
      (events : List ClientEvent) (st : ClientState)
      → Cleared st.session
      → has_input events ≡ true
      → (run_client fs st events).input_ended ≡ true
  unfolding run_client
  input-Ends [] st h has = absurd (cc has)
  input-Ends (input_event wake ∷ events) st h has =
      (run_client-Later fs events (client_step fs st (input_event wake))).input
        (client_step-input fs st wake h)
  input-Ends (socket_event wake ∷ events) st h has =
      input-Ends events (client_step fs st (socket_event wake))
        ((client_step-Later fs st (socket_event wake)).flag h) has

  messages-Ends :
      (events : List ClientEvent) (st : ClientState)
      → Cleared st.session
      → has_message events ≡ true
      → (run_client fs st events).messages_ended ≡ true
  unfolding run_client
  messages-Ends [] st h has = absurd (cc has)
  messages-Ends (socket_event wake ∷ events) st h has =
      (run_client-Later fs events (client_step fs st (socket_event wake))).messages
        (client_step-messages fs st wake h)
  messages-Ends (input_event wake ∷ events) st h has =
      messages-Ends events (client_step fs st (input_event wake))
        ((client_step-Later fs st (input_event wake)).flag h) has

  -- Once `client_running` is cleared, the client ends: whatever steps the two threads take and in
  -- whatever order, neither sets the flag again, and one step of each is enough for both loops to
  -- have ended.
  pub run_client-Ends :
      (st : ClientState) (events : List ClientEvent)
      → st.session.client_running ≡ false
      → has_input events ≡ true
      → has_message events ≡ true
      → ((run_client fs st events).session.client_running ≡ false)
        × ((run_client fs st events).input_ended ≡ true)
        × ((run_client fs st events).messages_ended ≡ true)
  run_client-Ends st events h input socket = (
    (run_client-Later fs events st).flag h,
    input-Ends events st h input,
    messages-Ends events st h socket,
  )
