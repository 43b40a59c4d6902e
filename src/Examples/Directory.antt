-- ===== src/Examples/Directory.antt =====
-- A user with the home directory /home/a (directory_manager.c).
use socket_speak.Base.{ℕ, ◌≡◌, refl, List, [], ◌∷◌, ◌++◌, true, false, some, codes, arith}
use socket_speak.Process.{Os, Process, done, ◌>>=◌}
use socket_speak.Directory.{set_program_username, path_in_user_directory}
use socket_speak.Directory.Paths.{directory_of, mkdir, IsIn, set_program_username-path}

-- Everything works.
abbrev pub os : Os
os = record { home = some (codes "/home/a"); runs = λ c. true; opens = λ p. true; sends = true }

abbrev pub started : Process
started = record {
  files = [];
  commands = [];
  prints = [];
  pusername = [];
  user_directory = [];
  made_directory = false;
}

-- The directory of the examples, and a process that uses it.
abbrev pub directory : List ℕ
directory = codes "/lmp/a/"

abbrev pub inside : Process
inside = record started { user_directory = directory; made_directory = true }

pub inside-IsIn : IsIn directory inside
inside-IsIn = record { here = refl; made = refl }

abbrev ann : List ℕ
ann = codes "ann"

abbrev home : List ℕ
home = codes "/home/a"

set_program_username-path_example :
    (set_program_username os ann started >>= path_in_user_directory os (codes "nick.txt"))
    ≡ done (
      directory_of home ann ++ codes "nick.txt",
      record started {
        pusername = ann ++ codes "/";
        user_directory = directory_of home ann;
        made_directory = true;
        commands = mkdir (directory_of home ann) ∷ [];
      },
    )
set_program_username-path_example =
    set_program_username-path os b'/' (codes "home/a") ann (codes "nick.txt") started refl refl
      (omega arith) (omega arith) (omega arith)
