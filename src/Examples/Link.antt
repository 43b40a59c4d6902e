-- ===== src/Examples/Link.antt =====
-- Two users of a chat: the first says something, which the second hears (lmp.c).
use socket_speak.Base.{
  IsString, ℕ, ◌≡◌, refl, ap, List, [], ◌∷◌, false, true, get_elem?, ◌++◌, codes, str_eq, arith,
}
use socket_speak.Process.{done, lookup}
use socket_speak.Lmp.Code
use socket_speak.Program.World.{Setting, World}
use socket_speak.Program.Loop.{print_prompt, receive_message, chat_line}
use socket_speak.Program.Heard.{Logs, chat_line-Logs, receive_message-Logs}
use socket_speak.Lmp.Lines.{IsPlain}
use socket_speak.Program.Link.{
  Link, Reach, here, step, by_a, by_b, says, hears, Party, Agree, Talked, Reach-Agree,
}
use socket_speak.Examples.Directory.{os, inside}
use socket_speak.Examples.Chat.{chat}
use socket_speak.Examples.Client.{client}

abbrev pub setting : Setting
setting = record { os = os; group_of = λ buf. client.user_group; image = codes "group" }

abbrev h_txt : List ℕ
h_txt = codes "h.txt"

-- A program with an empty history.
abbrev pub world : List ℕ → List ℕ → World
world me them = record {
  stickers = record {
    sticker_array = [];
    history_loaded = true;
    input = [];
    chat = record chat {
      my_nick = me;
      peer_nick = them;
      history_path = h_txt;
      process = record inside { files = (h_txt, []) ∷ [] };
    };
  };
  client = client;
}

abbrev ann : Party
ann = record {
  first = b'h';
  rest = codes ".txt";
  me = codes "ann";
  them = codes "ben";
  before = [];
}

abbrev ben : Party
ben = record {
  first = b'h';
  rest = codes ".txt";
  me = codes "ben";
  them = codes "ann";
  before = [];
}

silent-Logs : (me them : List ℕ) → Logs h_txt me them [] [] (world me them)
unfolding lookup str_eq
silent-Logs me them = record { kept = (refl, refl); sent = refl; my_name = refl; peer_name = refl }

abbrev hi : List ℕ
hi = codes "hi"

abbrev start : Link
start = record {
  a = world (codes "ann") (codes "ben");
  b = world (codes "ben") (codes "ann");
  read_a = 0;
  read_b = 0;
}

start-Agree : Agree ann ben [] [] start
start-Agree = record {
  side_a = record {
    logs = silent-Logs (codes "ann") (codes "ben");
    clean = tt;
    unread = [];
    heard = refl;
    counted = refl;
  };
  side_b = record {
    logs = silent-Logs (codes "ben") (codes "ann");
    clean = tt;
    unread = [];
    heard = refl;
    counted = refl;
  };
}

-- ann says hi.
spoken :
    (v : World) × (chat_line setting hi (print_prompt start.a) ≡ done v)
    × Logs h_txt (codes "ann") (codes "ben") [] ((true, hi) ∷ []) v
spoken =
    chat_line-Logs setting b'h' (codes ".txt") (codes "ann") (codes "ben") [] refl refl [] hi
      start.a (silent-Logs (codes "ann") (codes "ben")) (omega arith)

hi-IsPlain : IsPlain hi
hi-IsPlain = omega arith

hi-IsString : IsString hi
hi-IsString = ground arith

-- ben hears it.
heard :
    (v : World) × (receive_message setting
        (record { type = Code.msg; sender = 0; len = 2; buf = hi ++ (0 ∷ []) })
        start.b
      ≡ done v)
    × Logs h_txt (codes "ben") (codes "ann") [] ((false, hi) ∷ []) v
heard =
    receive_message-Logs setting b'h' (codes ".txt") (codes "ben") (codes "ann") [] refl refl [] hi
      [] 2 0 start.b (silent-Logs (codes "ben") (codes "ann")) (ground arith)

abbrev both_spoke : Link
both_spoke = record { a = spoken.0; b = heard.0; read_a = 0; read_b = 1 }

abbrev talk : Reach setting setting start both_spoke
talk =
    step {m = record start { a = spoken.0 }}
      (step here (by_a (says hi hi-IsPlain hi-IsString spoken.1 refl) refl refl))
      (by_b (hears Code.msg hi [] (ap (λ q. get_elem? q 0) spoken.2.sent) heard.1 refl) refl refl)

Reach-Agree_example : Talked ann ben [] [] (hi ∷ []) [] both_spoke
Reach-Agree_example = Reach-Agree setting setting ann ben refl refl refl refl [] [] talk start-Agree
