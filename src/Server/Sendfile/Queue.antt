-- ===== src/Server/Sendfile/Queue.antt =====
-- `handle_sendfile_command` and the upload queue.
use tcp_chat_server_c.Base.{
  Bool, Bool-cases, Option, Option-cases, eq_int, false, inl, inr, none, pos, refl, some, success,
  true, ℕ, ℤ, ◌||◌, ◌≡◌,
}
use tcp_chat_server_c.CString.{Bytes, eq_bytes, is_empty, split_at}
use tcp_chat_server_c.Wire.{Net, send_message}
use tcp_chat_server_c.Clients.{Client, find_client_by_socket, find_client_by_username}
use tcp_chat_server_c.Replies.{render, upload_request}
use tcp_chat_server_c.FileQueue.{
  Item, add_to_file_queue, is_file_queue_full, remove_from_file_queue, validate_file_extension,
}
use tcp_chat_server_c.FileQueue.View.{IsQueue}
use tcp_chat_server_c.FileQueue.Cycle.{Restored, Restored-refl, add_to_file_queue_cases}
use tcp_chat_server_c.FileTransfer.{receive_file_from_client, send_file_to_client}
use tcp_chat_server_c.Server.{Resources, World, respond}
use tcp_chat_server_c.Server.Sendfile.{
  finish_transfer, handle_sendfile_command, queued, requested, send_to, sendfile_checked,
  sendfile_from, transferred, uploaded,
}

module _ (w : World) (v : IsQueue w.queue) (fd : ℤ) where
  -- The queue of the result holds what the queue held before.
  abbrev Kept : World → Type 0
  Kept w' = Restored w.queue w'.queue

  kept : Kept w
  kept = Restored-refl w.queue v

  transferred-Kept :
      (w' : World) (index : ℤ) (filename target file_data : Bytes) (r : Bool × Net)
      → Restored w.queue (remove_from_file_queue w'.queue index).1
      → Kept (transferred w' fd index filename target file_data r)
  unfolding transferred finish_transfer respond
  transferred-Kept w' index filename target file_data (true, net) k = k
  transferred-Kept w' index filename target file_data (false, net) k = k

  module _ (sender receiver : Client) (filename target : Bytes) where
    queued-Kept :
        (w' : World) (file_data : Bytes) (it : Item)
        → w'.queue ≡ w.queue
        → Kept
            (queued w' fd sender receiver filename target file_data (add_to_file_queue w'.queue it))
    unfolding queued respond
    queued-Kept w' file_data it e = elim (add_to_file_queue_cases w.queue it v) [
      | inl full ↦ rw (e, full) kept
      | inr (q', i, added, k) ↦
          rw (e, added)
            (transferred-Kept (record w' { queue = q' }) (pos i) filename target file_data
              (send_file_to_client w'.net receiver.socket_fd filename sender.username file_data) k)
    ]

    uploaded-Kept :
        (w' : World) (now : ℕ) (r : Option Bytes × Net)
        → w'.queue ≡ w.queue
        → Kept (uploaded w' fd sender receiver now filename target r)
    unfolding uploaded respond
    uploaded-Kept w' now (none, net) e = rw e kept
    uploaded-Kept w' now (some file_data, net) e =
        queued-Kept (record w' { net = net }) file_data _ e

    requested-Kept :
        (res : Resources) (r : ℤ × Net)
        → Kept (requested w fd sender receiver res filename target r)
    unfolding requested respond
    requested-Kept res (code, net) = elim (Bool-cases (eq_int code success)) [
      | inr bad ↦ rw bad kept
      | inl good ↦ rw good (
          uploaded-Kept (record w { net = net }) res.now
            (receive_file_from_client res.file_memory net fd) refl)
    ]

  send_to-Kept :
      (sender : Client) (res : Resources) (filename target : Bytes) (o : Option Client)
      → Kept (send_to w fd sender res filename target o)
  unfolding send_to respond
  send_to-Kept sender res filename target none = kept
  send_to-Kept sender res filename target (some receiver) = elim (Bool-cases receiver.is_active) [
    | inr away ↦ rw away kept
    | inl here ↦ rw here (elim (Bool-cases (is_file_queue_full w.queue)) [
      | inl full ↦ rw full kept
      | inr free ↦ rw free (
          requested-Kept sender receiver filename target res
            (send_message w.net fd (render (upload_request filename target))))
    ])
  ]

  sendfile_checked-Kept :
      (sender : Client) (res : Resources) (filename target : Bytes)
      → Kept (sendfile_checked w fd sender res filename target)
  unfolding sendfile_checked respond
  sendfile_checked-Kept sender res filename target =
      elim (Bool-cases (is_empty filename || is_empty target)) [
        | inl missing ↦ rw missing kept
        | inr named ↦ rw named (elim (Bool-cases (validate_file_extension filename)) [
          | inr bad ↦ rw bad kept
          | inl good ↦ rw good (elim (Bool-cases (eq_bytes sender.username target)) [
            | inl self ↦ rw self kept
            | inr other ↦ rw other (
                send_to-Kept sender res filename target
                  (find_client_by_username w.clients.nodes target))
          ])
        ])
      ]

  sendfile_from-Kept :
      (sender : Client) (res : Resources) (args : Bytes) → Kept (sendfile_from w fd sender res args)
  unfolding sendfile_from respond
  sendfile_from-Kept sender res args = elim (Bool-cases res.args_memory) [
    | inr none' ↦ rw none' kept
    | inl some' ↦ rw some' (elim (Option-cases (split_at b' ' args)) [
      | inl whole ↦ rw whole kept
      | inr (parts, e) ↦ rw e (sendfile_checked-Kept sender res _ _)
    ])
  ]

-- Every branch of `handle_sendfile_command` leaves the upload queue with the items that it had, in
-- their order: an upload that took a place has given it back.
pub handle_sendfile_command-Restored :
    (w : World) (fd : ℤ) (args : Bytes) (res : Resources)
    → IsQueue w.queue
    → Restored w.queue (handle_sendfile_command w fd args res).queue
unfolding handle_sendfile_command respond
handle_sendfile_command-Restored w fd args res v = elim (Bool-cases (is_empty args)) [
  | inl nothing ↦ rw nothing (kept w v fd)
  | inr text ↦ rw text (elim (Option-cases (find_client_by_socket w.clients.nodes fd)) [
    | inl none' ↦ rw none' (kept w v fd)
    | inr (c, e) ↦ rw e (sendfile_from-Kept w v fd c res args)
  ])
]
