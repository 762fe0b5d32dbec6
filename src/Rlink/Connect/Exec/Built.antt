-- ===== src/Rlink/Connect/Exec/Built.antt =====
-- The lists of RlinkCommandList.cpp under the checks of `RlinkConnect::Exec`.
use w.Base.{Bool, true, false, ◌≡◌, refl, ap, ◌∙◌, some, List, [], ◌∷◌, All, map, ◌&&◌, ◌==◌}
use w.Rlink.Command.{Command, command}
use w.Rlink.Command.Code
use w.Rlink.CommandList.{CommandList, create}
use w.Rlink.CommandList.Laws.{IsValid, Build, AddsValid, build, build-AllValid}
use w.Rlink.Context.{Context}
use w.Rlink.Connect.Packets.{Server, is_outside}
use w.Rlink.Connect.Exec.{prepare_all, cleaned}
use w.Rlink.Connect.Exec.EndToEnd.{IsAccepted, prepare_all-accepted}

All-IsAccepted :
    (server : Server) (cs : List Command)
    → is_outside server ≡ false
    → All IsValid cs
    → All (IsAccepted server) cs
All-IsAccepted server [] o hs = tt
All-IsAccepted server (c ∷ cs) o (h, hs) = (
  record {
    is_set_up = h.is_set_up;
    has_code = h.has_code;
    attn_inside =
        ap (λ (b : Bool). (command c == Code.attn) && b) o ∙ never (command c == Code.attn);
  },
  All-IsAccepted server cs o hs,
)
  where
    never : (b : Bool) → (b && false) ≡ false
    never true = refl
    never false = refl

-- A list is built from an empty one by any calls of the `Add...` and `SetLastExpect...` methods, none
-- of which throws; a command that is added by `AddCommand` has been set up with a code of the
-- protocol, and so has each command of a list that is added. When the server, if there is one, is
-- not active outside of the calling thread, then `Exec` throws for none of the commands of the list,
-- and makes each of them ready to be sent: the flags of an earlier execution are cleared, and the
-- status check of the context is put in where the command has none.
pub build-prepare_all :
    (bs : List Build) (l : CommandList) (server : Server) (x : Context)
    → All AddsValid bs
    → build bs create ≡ some l
    → is_outside server ≡ false
    → prepare_all server x l.commands ≡ some (map (cleaned x) l.commands)
build-prepare_all bs l server x adds h o =
    prepare_all-accepted server x l.commands
      (All-IsAccepted server l.commands o (build-AllValid bs l adds h))
