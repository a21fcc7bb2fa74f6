-- ===== src/CString/Tests.antt =====
-- Runs of the string functions.
use tcp_chat_server_c.Base.{false, refl, some, true, ◌≡◌}
use tcp_chat_server_c.CString.{
  all_alnum, codes, decimal, eq_nocase, from_last, is_alnum, is_blank, skip, split_at, trim_end,
}

decimal_run : decimal 3145728 ≡ codes "3145728"
unfolding decimal codes
decimal_run = refl

trim_run : trim_end is_blank (skip is_blank (codes "  a b  ")) ≡ codes "a b"
unfolding trim_end is_blank skip codes
trim_run = refl

split_run : split_at b' ' (codes "bob hi there") ≡ some (codes "bob", codes "hi there")
unfolding split_at codes
split_run = refl

from_last_run : from_last b'.' (codes "a.tar.PNG") ≡ some (codes ".PNG")
unfolding from_last codes
from_last_run = refl

nocase_run : eq_nocase (codes ".PNG") (codes ".png") ≡ true
unfolding eq_nocase codes
nocase_run = refl

alnum_run : all_alnum (codes "room 1") ≡ false
unfolding all_alnum is_alnum codes
alnum_run = refl
