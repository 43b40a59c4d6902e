-- ===== src/Lmp/Dispatch.antt =====
-- What the registry guarantees: unambiguous dispatch, by name and by code.
use socket_speak.Base.{
  ℕ, ◌≤◌, ◌<◌, ◌≡◌, refl, List, [], ◌∷◌, ◌++◌, false, Option, none, some, ◌==◌, if◌then◌else◌,
  length, length-append, str_eq, str_eq_iff, All, arith, All-append, ==_refl,
}
use socket_speak.Lmp.Registry.{
  command_error, max_commands, max_name_len, SendHandler, RecvHandler, CommandEntry, is_taken,
  register_command, find_name, find_code, dispatch_recv,
}

module _ {C : Type 0} where
  -- No entry shares its code or its name with a later one.
  abbrev pub IsUnambiguous : List (CommandEntry C) → Type 0
  IsUnambiguous [] = Unit {0}
  IsUnambiguous (e ∷ es) =
      All (λ f. ((e.code == f.code) ≡ false) × (str_eq e.name f.name ≡ false)) es × IsUnambiguous es

  pub record IsTable (table : List (CommandEntry C)) : Type 0 where
    pub small : length table ≤ max_commands
    pub short : All (λ e. length e.name < max_name_len) table
    pub unambiguous : IsUnambiguous table

  IsUnambiguous-snoc :
      (table : List (CommandEntry C)) (e : CommandEntry C)
      → IsUnambiguous table
      → is_taken table e.code e.name ≡ false
      → IsUnambiguous (table ++ (e ∷ []))
  unfolding is_taken
  IsUnambiguous-snoc [] e u free = (tt, tt)
  IsUnambiguous-snoc (f ∷ table) e u free = (
    All-append _ table (e ∷ []) u.0 ((ground arith, ground arith), tt),
    IsUnambiguous-snoc table e u.1 (ground arith),
  )

  add-IsTable :
      (table : List (CommandEntry C)) (e : CommandEntry C)
      → IsTable table
      → length table < max_commands
      → length e.name < max_name_len
      → is_taken table e.code e.name ≡ false
      → IsTable (table ++ (e ∷ []))
  add-IsTable table e h room short free = record {
    small = omega (arith, length-append table (e ∷ []));
    short = All-append _ table (e ∷ []) h.short (short, tt);
    unambiguous = IsUnambiguous-snoc table e h.unambiguous free;
  }

  -- If the command table has at most 32 entries with names shorter than 32 bytes, and no two
  -- entries share a code or a name, then this holds after any call of register_command.
  pub register_command-IsTable :
      (code : ℕ) (name : Option (List ℕ)) (send : Option (SendHandler C))
      (recv : Option (RecvHandler C)) (table : List (CommandEntry C))
      → IsTable table
      → IsTable (register_command code name send recv table)
  unfolding register_command
  register_command-IsTable code none send recv table h = h
  register_command-IsTable code (some name) send recv table h =
      let e : CommandEntry C = record { code = code; name = name; send = send; recv = recv } in
      ground (arith, add-IsTable table e h)

  -- A registration that none of the guards refuses.
  abbrev pub IsAccepted : List (CommandEntry C) → ℕ → List ℕ → Type 0
  IsAccepted table code name =
      (length table < max_commands)
      × (length name < max_name_len)
      × (is_taken table code name ≡ false)

  register_command-accepted :
      (code : ℕ) (name : List ℕ) (send : Option (SendHandler C)) (recv : Option (RecvHandler C))
      (table : List (CommandEntry C))
      → IsAccepted table code name
      → register_command code (some name) send recv table
        ≡ table ++ (record { code = code; name = name; send = send; recv = recv } ∷ [])
  unfolding register_command
  register_command-accepted code name send recv table (room, short, free) = ground arith

  find_code-snoc :
      (table : List (CommandEntry C)) (e : CommandEntry C) (code : ℕ)
      → is_taken table e.code e.name ≡ false
      → find_code (table ++ (e ∷ [])) code
        ≡ (if e.code == code then some e else find_code table code)
  unfolding find_code is_taken
  find_code-snoc [] e code free = refl
  find_code-snoc (f ∷ table) e code free = ground (arith, find_code-snoc table e code)

  find_name-snoc :
      (table : List (CommandEntry C)) (e : CommandEntry C) (name : List ℕ)
      → is_taken table e.code e.name ≡ false
      → find_name (table ++ (e ∷ [])) name
        ≡ (if str_eq e.name name then some e else find_name table name)
  unfolding find_name is_taken
  find_name-snoc [] e name free = refl
  find_name-snoc (f ∷ table) e name free = ground (
    arith,
    find_name-snoc table e name,
    str_eq_iff f.name name,
    str_eq_iff e.name name,
    str_eq_iff f.name e.name,
  )

  module _ (code : ℕ) (name : List ℕ) (send : Option (SendHandler C))
      (recv : Option (RecvHandler C)) (table : List (CommandEntry C))
      (accepted : IsAccepted table code name) where
    abbrev entry : CommandEntry C
    entry = record { code = code; name = name; send = send; recv = recv }

    -- If the table has room, the name is short and neither the code nor the name is taken, then
    -- after register_command the lookups by code and by name find the new entry at its code and
    -- its name, and answer as before everywhere else.
    pub find-register_command :
        (code' : ℕ) (name' : List ℕ)
        → let table' = register_command code (some name) send recv table in
          (find_code table' code' ≡ (if code == code' then some entry else find_code table code'))
          × (find_name table' name'
              ≡ (if str_eq name name' then some entry else find_name table name'))
    find-register_command code' name' =
        rw (register_command-accepted code name send recv table accepted)
          (find_code-snoc table entry code' accepted.2, find_name-snoc table entry name' accepted.2)

    -- So a message with that code goes to its handler; without one it is an error.
    pub dispatch_recv-register_command :
        (buf : List ℕ) (len : ℕ) (ctx : C)
        → dispatch_recv (register_command code (some name) send recv table) code buf len ctx
          ≡ elim recv [ none ↦ (command_error, ctx) | some handler ↦ handler code buf len ctx ]
    unfolding dispatch_recv
    dispatch_recv-register_command buf len ctx =
        rw ((find-register_command code name).0, ==_refl code)
