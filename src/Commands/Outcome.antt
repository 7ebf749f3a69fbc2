-- ===== src/Commands/Outcome.antt =====
-- When the main loop goes on, and what `quit` does behind `execute`.
use cpts.Base.{
  ℕ, ◌+◌, ◌≤◌, ◌<◌, ◌≡◌, Bool, true, false, not, Option, none, some, List, [], ◌∷◌, ltb, ◌==◌,
  on_some, refl, arith, Bool-cases, inl, inr,
}
use cpts.Text.{Text, same_text, codes, length}
use cpts.Sim.{Sim, nminodes}
use cpts.Sim.Monad.{M, Run, fault-ok, ok, fault, out_of_fuel, pure, and_then, ◌>>=◌}
use cpts.Paths.{tokenize}
use cpts.Mounts.Quit.{Numbered, save_all, my_quit-save_all}
use cpts.Commands.{Output, nothing, run}
use cpts.Commands.Table.{Command, commands, find_command}
use cpts.Commands.Execute.{run_tokens, execute}

-- The command of the line is `quit`.
abbrev names_quit : List Text → Bool
names_quit [] = false
names_quit (name ∷ rest) = same_text name (codes "quit")

abbrev pub is_quit : Text → Bool
is_quit [] = false
is_quit (c ∷ cs) = names_quit (tokenize (c ∷ cs) b' ')

-- The index of a command counts from that of the first entry.
find_command-index :
    (name : Text) (i : ℕ) (l : List (Text × Command)) (j : ℕ) (c : Command)
    → find_command name i l ≡ some (j, c)
    → i ≤ j
unfolding find_command
find_command-index name i [] j c e = absurd (cc)
find_command-index name i ((n, d) ∷ rest) j c e = elim (Bool-cases (same_text name n)) [
  | inl hit ↦
      let same : some (i, d) ≡ some (j, c) = rw hit at e in let k : i ≡ j = cc in omega (arith, k)
  | inr miss ↦ let k = find_command-index name (i + 1) rest j c (rw miss at e) in omega (arith, k)
]

-- Only the first entry has index 0.
index-first :
    (name n : Text) (d : Command) (rest : List (Text × Command)) (i : ℕ) (c : Command)
    → find_command name 0 ((n, d) ∷ rest) ≡ some (i, c)
    → (i == 0) ≡ same_text name n
unfolding find_command
index-first name n d rest i c e = elim (Bool-cases (same_text name n)) [
  | inl hit ↦ let f : some (0, d) ≡ some (i, c) = rw hit at e in let z : 0 ≡ i = cc in rw (← z, hit)
  | inr miss ↦
      let k = find_command-index name 1 rest i c (rw miss at e) in rw miss (ground (arith, k))
]

module _ (os_open : Text → Option ℕ) where
  -- What is left of `execute` when the entry of the command is found.
  abbrev run_found : List Text → ℕ × Command → M (Output × Bool)
  run_found argv (i, c) = do out ← run os_open c argv; pure (out, not (i == 0))

  run_found-more :
      (argv : List Text) (i : ℕ) (c : Command) (s t : Sim) (out : Output) (more : Bool)
      → run_found argv (i, c) s ≡ ok (out, more) t
      → more ≡ not (i == 0)
  run_found-more argv i c s t out more e = go (run os_open c argv s) e
    where
      go :
          (r : Run Output)
          → and_then {B = Output × Bool} r (λ out. pure (out, not (i == 0))) ≡ ok (out, more) t
          → more ≡ not (i == 0)
      go (ok a u) h = cc
      go fault h = absurd (cc)
      go out_of_fuel h = absurd (cc)

  unknown-quit :
      (name : Text) → find_command name 0 commands ≡ none → same_text name (codes "quit") ≡ false
  unfolding find_command
  unknown-quit name e = elim (Bool-cases (same_text name (codes "quit"))) [
    | inl hit ↦ cc (rw hit at e)
    | inr miss ↦ miss
  ]

  found-more :
      (name : Text) (argv : List Text) (s t : Sim) (out : Output) (more : Bool)
      (r : Option (ℕ × Command))
      → find_command name 0 commands ≡ r
      → on_some r (pure (nothing, true)) (run_found argv) s ≡ ok (out, more) t
      → more ≡ not (same_text name (codes "quit"))
  found-more name argv s t out more none f e = rw (unknown-quit name f) (cc)
  found-more name argv s t out more (some (i, c)) f e =
      rw (← index-first name _ _ _ i c f) (run_found-more argv i c s t out more e)

  run_tokens-more :
      (ts : List Text) (s t : Sim) (out : Output) (more : Bool)
      → run_tokens os_open ts s ≡ ok (out, more) t
      → more ≡ not (names_quit ts)
  unfolding run_tokens
  run_tokens-more [] s t out more e = absurd (cc)
  run_tokens-more (name ∷ rest) s t out more e = elim (Bool-cases (ltb 63 (length rest))) [
    | inl full ↦ absurd (fault-ok (rw full at e))
    | inr fits ↦ found-more name (name ∷ rest) s t out more _ refl (rw fits at e)
  ]

  -- When `execute` of a line returns, its flag to go on is false if and only if the line's first
  -- token is `quit`.
  pub execute-more :
      (line : Text) (s t : Sim) (out : Output) (more : Bool)
      → execute os_open line s ≡ ok (out, more) t
      → more ≡ not (is_quit line)
  unfolding execute
  execute-more [] s t out more e = cc
  execute-more (c ∷ cs) s t out more e = run_tokens-more (tokenize (c ∷ cs) b' ') s t out more e

  -- A line whose first token is `quit`, with at most 63 others, ends the loop when every minode in
  -- use has an inode number: the dirty ones in use are on the disk, in the order of the table, no
  -- minode is in use, and the rest of the state is as it was.
  pub execute-quit :
      (c : ℕ) (cs : Text) (rest : List Text) (s : Sim)
      → tokenize (c ∷ cs) b' ' ≡ codes "quit" ∷ rest
      → length rest ≤ 63
      → Numbered s.m_inodes
      → (t : Sim) × (execute os_open (c ∷ cs) s ≡ ok (nothing, false) t)
        × ((t.image ≡ save_all s.m_inodes nminodes 0 s.image)
            × (((i : ℕ) → i < nminodes → (t.m_inodes i).ref_count ≡ 0)
                × (t ≡ record s { image = t.image; m_inodes = t.m_inodes })))
  unfolding execute run_tokens find_command same_text run
  execute-quit c cs rest s e few h =
      let (t, quits, after) = my_quit-save_all s h in (t, rw (e, fits, quits) refl, after)
    where
      fits : ltb 63 (length rest) ≡ false
      fits = ground arith
