-- ===== src/Directory/Paths.antt =====
-- Where a user's files are.
use mathlib.Core.List.{append_assoc}
use socket_speak.Base.{
  ℕ, ◌+◌, ◌-◌, ◌<◌, ◌≡◌, refl, ap, ◌∙◌, List, [], ◌∷◌, ◌++◌, true, false, some, length,
  length-append, take_all, codes, arith,
}
use socket_speak.Process.{Os, Process, done, ◌>>=◌}
use socket_speak.Directory.{
  get_user_directory, path_size, get_root_directory, set_program_username, path_in_user_directory,
  strncat,
}

-- The directory of a user under a home directory, and the command that makes it.
abbrev pub directory_of : List ℕ → List ℕ → List ℕ
directory_of home username = (home ++ codes "/lmp/") ++ (username ++ codes "/")

abbrev pub mkdir : List ℕ → List ℕ
mkdir path = codes "mkdir -p " ++ path

strncat_short :
    (buffer text : List ℕ)
    → length buffer + length text < path_size
    → strncat path_size buffer text ≡ buffer ++ text
strncat_short buffer text h =
    ap (λ t. buffer ++ t) (take_all (path_size - length buffer - 1) text (omega arith))

get_root_directory_home :
    (os : Os) (c : ℕ) (cs : List ℕ)
    → os.home ≡ some (c ∷ cs)
    → length (c ∷ cs) + 5 < path_size
    → get_root_directory os ≡ (c ∷ cs) ++ codes "/lmp/"
unfolding get_root_directory
get_root_directory_home os c cs e h = rw e (
    ap (λ b. strncat path_size (strncat path_size b (codes "/")) (codes "lmp/"))
      (strncat_short [] (c ∷ cs) (omega arith))
    ∙ ap (λ b. strncat path_size b (codes "lmp/"))
        (strncat_short (c ∷ cs) (codes "/") (omega arith))
    ∙ strncat_short ((c ∷ cs) ++ codes "/") (codes "lmp/")
        (omega (arith, length-append (c ∷ cs) (codes "/")))
    ∙ append_assoc (c ∷ cs) (codes "/") (codes "lmp/"))

-- The directory is the one in use, and was made.
pub record IsIn (directory : List ℕ) (p : Process) : Type 0 where
  pub here : p.user_directory ≡ directory
  pub made : p.made_directory ≡ true

pub get_user_directory-IsIn :
    (os : Os) (c : ℕ) (cs : List ℕ) (p : Process)
    → IsIn (c ∷ cs) p
    → get_user_directory os p ≡ done p
unfolding get_user_directory
get_user_directory-IsIn os c cs p h = ground (arith, h.here, h.made)

pub path_in_user_directory-IsIn :
    (os : Os) (c : ℕ) (cs filename : List ℕ) (p : Process)
    → IsIn (c ∷ cs) p
    → length ((c ∷ cs) ++ filename) < path_size
    → path_in_user_directory os filename p ≡ done ((c ∷ cs) ++ filename, p)
unfolding path_in_user_directory
path_in_user_directory-IsIn os c cs filename p h short = ground (arith, h.here, h.made)

path_in_user_directory_fresh :
    (os : Os) (c : ℕ) (cs filename : List ℕ) (p : Process)
    → p.user_directory ≡ c ∷ cs
    → p.made_directory ≡ false
    → os.runs (mkdir (c ∷ cs)) ≡ true
    → length (mkdir (c ∷ cs)) < path_size
    → length ((c ∷ cs) ++ filename) < path_size
    → path_in_user_directory os filename p
      ≡ done (
        (c ∷ cs) ++ filename,
        record p { made_directory = true; commands = p.commands ++ (mkdir (c ∷ cs) ∷ []) },
      )
unfolding path_in_user_directory
path_in_user_directory_fresh os c cs filename p here fresh runs long short =
    ground (arith, here, fresh, runs)

set_program_username-eq :
    (os : Os) (username : List ℕ) (p : Process)
    → length (username ++ codes "/") < 256
    → length (get_root_directory os ++ (username ++ codes "/")) < path_size
    → set_program_username os username p
      ≡ done (record p {
        pusername = username ++ codes "/";
        user_directory = get_root_directory os ++ (username ++ codes "/");
        made_directory = false;
      })
unfolding set_program_username
set_program_username-eq os username p name long = ground arith

-- With HOME set and not empty, after set_program_username a file of the user is opened at
-- HOME/lmp/username/filename, after one mkdir -p of that directory, which succeeds. The user name
-- is shorter than 255 bytes and the paths fit in 512.
pub set_program_username-path :
    (os : Os) (c : ℕ) (cs username filename : List ℕ) (p : Process)
    → os.home ≡ some (c ∷ cs)
    → os.runs (mkdir (directory_of (c ∷ cs) username)) ≡ true
    → length username < 255
    → length (directory_of (c ∷ cs) username) + 9 < path_size
    → length (directory_of (c ∷ cs) username ++ filename) < path_size
    → (set_program_username os username p >>= path_in_user_directory os filename)
      ≡ done (
        directory_of (c ∷ cs) username ++ filename,
        record p {
          pusername = username ++ codes "/";
          user_directory = directory_of (c ∷ cs) username;
          made_directory = true;
          commands = p.commands ++ (mkdir (directory_of (c ∷ cs) username) ∷ []);
        },
      )
set_program_username-path os c cs username filename p home runs name long short =
    let root = get_root_directory_home os c cs home (
      omega (
        arith,
        length-append ((c ∷ cs) ++ codes "/lmp/") (username ++ codes "/"),
        length-append (c ∷ cs) (codes "/lmp/"),
      )) in
    let directory = directory_of (c ∷ cs) username in
    let named : Process = record p {
      pusername = username ++ codes "/";
      user_directory = directory;
      made_directory = false;
    } in
    let set : set_program_username os username p ≡ done named =
      set_program_username-eq os username p (omega (arith, length-append username (codes "/")))
        (rw root (omega arith))
      ∙ ap
          (λ r. done (record p {
            pusername = username ++ codes "/";
            user_directory = r ++ (username ++ codes "/");
            made_directory = false;
          }))
          root in
    rw set (
      path_in_user_directory_fresh os c ((cs ++ codes "/lmp/") ++ (username ++ codes "/")) filename
        named refl refl runs (omega arith) short)
