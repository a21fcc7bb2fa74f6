-- ===== src/FileQueue.antt =====
-- server/file_transfer.c, the upload queue: an array of five items, of which the first `count` are
-- in use. Every function holds the queue's mutex throughout, and is one step; `add_to_file_queue`
-- reads `count` once more after it, which is part of that step here.
pub mod View
pub mod Cycle
use tcp_chat_server_c.Base.{
  Bool, List, Option, [], failure, false, if◌then◌else◌, leb, negsuc, none, pos, replicate, some,
  suc, success, zero, ℕ, ℤ, ◌*◌, ◌+◌, ◌-◌, ◌||◌, ◌∷◌,
}
use tcp_chat_server_c.CString.{Bytes, codes, eq_nocase, from_last, truncate}

abbrev pub max_upload_queue : ℕ
max_upload_queue = 5

-- `file_queue_item_t`. `file_data` is the block that the item owns, or null.
pub record Item : Type 0 where
  pub filename : Bytes
  pub sender_username : Bytes
  pub receiver_username : Bytes
  pub file_data : Option Bytes
  pub file_size : ℕ
  pub created_time : ℕ
  pub sender_socket : ℤ
  pub receiver_socket : ℤ

pub record FileQueue : Type 0 where
  pub items : List Item
  pub count : ℕ

-- The global starts out as zeroes.
blank_item : Item
blank_item = record {
  filename = [];
  sender_username = [];
  receiver_username = [];
  file_data = none;
  file_size = 0;
  created_time = 0;
  sender_socket = pos 0;
  receiver_socket = pos 0;
}

-- With the result of `pthread_mutex_init`.
unfoldable pub init_file_queue : Bool → ℤ × FileQueue
unfolding blank_item
init_file_queue mutex_ok = (
  if mutex_ok then success else failure,
  record { items = replicate max_upload_queue blank_item; count = 0 },
)

-- `free(item->file_data); item->file_data = NULL;` for the items in use.
drop_data : Item → Item
drop_data it = record it { file_data = none }

unfoldable pub drop_first : ℕ → List Item → List Item
unfolding drop_data
drop_first zero items = items
drop_first (suc n) [] = []
drop_first (suc n) (it ∷ items) = drop_data it ∷ drop_first n items

-- `cleanup_file_queue` and `abort_all_file_transfers`.
unfoldable pub abort_all_file_transfers : FileQueue → FileQueue
unfolding drop_first
abort_all_file_transfers q = record { items = drop_first q.count q.items; count = 0 }

unfoldable pub set_item : List Item → ℕ → Item → List Item
set_item [] i it = []
set_item (x ∷ xs) zero it = it ∷ xs
set_item (x ∷ xs) (suc i) it = x ∷ set_item xs i it

unfoldable pub new_item : Bytes → Bytes → Bytes → Option Bytes → ℕ → ℕ → ℤ → ℤ → Item
new_item filename sender receiver file_data file_size now sender_socket receiver_socket = record {
  filename = truncate 256 filename;
  sender_username = truncate 17 sender;
  receiver_username = truncate 17 receiver;
  file_data = file_data;
  file_size = file_size;
  created_time = now;
  sender_socket = sender_socket;
  receiver_socket = receiver_socket;
}

-- The index of the new item, or -1 if the queue is full.
unfoldable pub add_to_file_queue : FileQueue → Item → ℤ × FileQueue
unfolding set_item
add_to_file_queue q it =
    if leb max_upload_queue q.count
    then (failure, q)
    else (pos q.count, record { items = set_item q.items q.count it; count = q.count + 1 })

-- `items[i] = items[i + 1]` for the `rounds` indices from `index` on.
unfoldable pub shift : ℕ → ℕ → List Item → List Item
shift rounds index [] = []
shift rounds (suc index) (x ∷ xs) = x ∷ shift rounds index xs
shift zero zero (x ∷ xs) = x ∷ xs
shift (suc rounds) zero (x ∷ []) = x ∷ []
shift (suc rounds) zero (x ∷ y ∷ xs) = y ∷ shift rounds zero (y ∷ xs)

unfoldable pub remove_from_file_queue : FileQueue → ℤ → ℤ × FileQueue
unfolding shift
remove_from_file_queue q (negsuc n) = (failure, q)
remove_from_file_queue q (pos index) = if leb q.count index then (failure, q) else (
  success,
  record { items = shift (q.count - 1 - index) index q.items; count = q.count - 1 },
)

unfoldable pub is_file_queue_full : FileQueue → Bool
is_file_queue_full q = leb max_upload_queue q.count

unfoldable pub get_file_queue_count : FileQueue → ℕ
get_file_queue_count q = q.count

unfoldable pub max_file_size : ℕ
max_file_size = 3 * 1024 * 1024

allowed_extensions : List Bytes
allowed_extensions = codes ".txt" ∷ codes ".pdf" ∷ codes ".jpg" ∷ codes ".png" ∷ codes ".mp4" ∷ []

any_nocase : Bytes → List Bytes → Bool
any_nocase dot [] = false
any_nocase dot (e ∷ es) = eq_nocase dot e || any_nocase dot es

allowed_suffix : Option Bytes → Bool
unfolding any_nocase allowed_extensions
allowed_suffix none = false
allowed_suffix (some dot) = any_nocase dot allowed_extensions

unfoldable pub validate_file_extension : Bytes → Bool
unfolding allowed_suffix
validate_file_extension filename = allowed_suffix (from_last b'.' filename)

unfoldable pub validate_file_size_limit : ℕ → Bool
validate_file_size_limit file_size = leb file_size max_file_size
