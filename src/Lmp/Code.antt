-- ===== src/Lmp/Code.antt =====
-- LMPCode (commands_registry.h): the type byte of a frame.
use socket_speak.Base.{ℕ}

abbrev pub msg : ℕ
msg = 0x01

abbrev pub nick : ℕ
nick = 0x02

abbrev pub ack : ℕ
ack = 0x03

abbrev pub uid : ℕ
uid = 0x04

abbrev pub stickers : ℕ
stickers = 0x05

abbrev pub meow : ℕ
meow = 0x10

abbrev pub grp_info : ℕ
grp_info = 0x11

abbrev pub grp_init_member : ℕ
grp_init_member = 0x12

abbrev pub grp_load_msg : ℕ
grp_load_msg = 0x13

abbrev pub grp_loading_msg : ℕ
grp_loading_msg = 0x14

abbrev pub grp_hangman : ℕ
grp_hangman = 0x15

abbrev pub grp_obj : ℕ
grp_obj = 0x80

abbrev pub error : ℕ
error = 0xFF
