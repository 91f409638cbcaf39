-- ===== src/Publication/Executables.antt =====
-- What `OSRunner` of internal/publication/publication.go asks of a command before it starts a process, and
-- that the commands of a request meet it.
use m3_repoworker.Prelude.{
  ◌≡◌, refl, Bool, true, false, ◌&&◌, ◌||◌, not, List, Bytes, text, bytes_eq, is_empty, Option,
  none, some, if◌then◌else◌, All, subst,
}
use m3_repoworker.Go.Filepath.{is_abs}
use m3_repoworker.Publication.Types.{
  Kind, git_checkpoint, jj_checkpoint, git_push, github_pr, release, dagger, dagu, other, Request,
  Command,
}
use m3_repoworker.Publication.Commands.{commands_of, commands}

unfoldable pub valid_executable : Bytes → Bool
valid_executable value =
    bytes_eq value (text "git")
    || bytes_eq value (text "gh")
    || bytes_eq value (text "dagger")
    || bytes_eq value (text "dagu")
    || bytes_eq value (text "jj")

-- The guard of `Run`, before the executable is looked up.
unfoldable pub startable : Bool → Bytes → Command → Bool
startable ctx dir command =
    ctx && not (is_empty dir) && is_abs dir && valid_executable command.executable

-- The commands, if there are any, have known executables.
abbrev Known : Option (List Command) → Type 0
Known none = Unit
Known (some cs) = All (λ c. valid_executable c.executable ≡ true) cs

Known-if : (test : Bool) (cs : Option (List Command)) → Known cs → Known (if test then none else cs)
Known-if true cs h = tt
Known-if false cs h = h

commands_of-Known : (kind : Kind) (r : Request) → Known (commands_of kind r)
unfolding commands_of valid_executable bytes_eq
commands_of-Known git_checkpoint r = (refl, (refl, tt))
commands_of-Known jj_checkpoint r = (refl, tt)
commands_of-Known git_push r = search Known-if
commands_of-Known github_pr r = search Known-if
commands_of-Known release r = search Known-if
commands_of-Known dagger r = search Known-if
commands_of-Known dagu r = search Known-if
commands_of-Known (other _) r = tt

-- Every command that a request stands for has an executable that the runner accepts.
pub commands-executable :
    (r : Request) (cs : List Command)
    → commands r ≡ some cs
    → All (λ c. valid_executable c.executable ≡ true) cs
unfolding commands
commands-executable r cs h = subst Known h (Known-if _ _ (commands_of-Known r.kind r))
