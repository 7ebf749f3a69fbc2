-- ===== src/Commands/Execute.antt =====
-- `execute` of src/command.c, and `main` of src/main.c.
use cpts.Base.{
  on_some, ℕ, ℤ, pos, negsuc, Bool, true, not, Option, List, [], ◌∷◌, ltb, ◌==◌, is_negative,
  if◌then◌else◌,
}
use cpts.Text.{Text, length}
use cpts.Sim.Monad.{M, stop, out_of_fuel, pure, ◌>>=◌, ◌>>◌, set_state}
use cpts.Paths.{tokenize}
use cpts.Mounts.{init, mount_root}
use cpts.Commands.{Output, nothing, run}
use cpts.Commands.Table.{commands, find_command}

module _ (os_open : Text → Option ℕ) where
  -- `argv` has room for 64 tokens, and `argv[0]` is read in any case.
  unfoldable pub run_tokens : List Text → M (Output × Bool)
  run_tokens [] = stop
  run_tokens (name ∷ rest) =
      if ltb 63 (length rest)
      then stop
      else on_some (find_command name 0 commands) (pure (nothing, true)) (λ found.
        let (i, c) = found in do out ← run os_open c (name ∷ rest); pure (out, not (i == 0)))

  -- The output of a line, and whether to go on: everything but the first command goes on.
  unfoldable pub execute : Text → M (Output × Bool)
  unfolding run_tokens
  execute [] = pure (nothing, true)
  execute (c ∷ cs) = run_tokens (tokenize (c ∷ cs) b' ')

  -- `do { … } while (execute(input));` over the lines that are typed, with less than 256 bytes. Behind
  -- the last of them `fgets` leaves the line as it is, which is executed again and again.
  unfoldable pub main_loop : List Text → M (List Output)
  main_loop [] = λ s. out_of_fuel
  main_loop (line ∷ lines) = do
    (out, more) ← execute line
    outs ← if more then main_loop lines else pure []
    pure (out ∷ outs)

  -- `main` with a device: the outputs of the lines, or the failure of `mount_root`.
  unfoldable pub main : Text → List Text → M (ℤ × List Output)
  main device lines = do
    set_state init
    r ← mount_root os_open device
    if is_negative r then pure (negsuc 0, []) else do outs ← main_loop lines; pure (pos 0, outs)
