-- ===== src/Rlink/CommandList.antt =====
-- tools/src/librlink/RlinkCommandList.{cpp,ipp}: a vector of commands, and the index of the command
-- that aborted it. An exception is `none`; the result of an `Add` is the index of the new command.
pub mod Laws
use w.Base.{ℕ, Bool, true, false, Option, none, some, List, [], ◌∷◌, ◌++◌, length, get_elem?, ◌>>=◌}
use w.Rlink.Command.{Command, cmd_rreg, cmd_rblk, cmd_rblk_ext, cmd_wreg, cmd_wblk, cmd_wblk_ext}
use w.Rlink.Command.{cmd_labo, cmd_attn, cmd_init, ensure_expect, set_expect, set_expect_status}
use w.Rlink.Command
use w.Rlink.Command.Expect.{Expect, set_done, set_block}
use w.Rlink.Command.Expect

pub record CommandList : Type 0 where
  pub commands : List Command
  pub labo_index : Option ℕ

unfoldable pub create : CommandList
create = record { commands = []; labo_index = none }

abbrev pub size : CommandList → ℕ
size l = length l.commands

unfoldable pub add_command : Command → CommandList → ℕ × CommandList
add_command c l = (size l, record l { commands = l.commands ++ (c ∷ []) })

-- A new command, set up by `f`.
unfoldable pub add_new : (Command → Option Command) → CommandList → Option (ℕ × CommandList)
add_new f l = do c ← f Command.create; some (add_command c l)

-- `for (auto& upcmd: clist.fList) AddCommand(*upcmd)`.
unfoldable pub add_all_commands : List Command → CommandList → CommandList
unfolding add_command
add_all_commands [] l = l
add_all_commands (c ∷ cs) l = add_all_commands cs (add_command c l).1

unfoldable pub add_list : CommandList → CommandList → ℕ × CommandList
add_list from l = (size l, add_all_commands from.commands l)

unfoldable pub add_rreg : ℕ → CommandList → Option (ℕ × CommandList)
add_rreg addr l = add_new (cmd_rreg addr) l

unfoldable pub add_rblk : ℕ → ℕ → CommandList → Option (ℕ × CommandList)
add_rblk addr n l = add_new (cmd_rblk addr n) l

unfoldable pub add_rblk_ext : ℕ → Option (List ℕ) → CommandList → Option (ℕ × CommandList)
add_rblk_ext addr block l = add_new (cmd_rblk_ext addr block) l

unfoldable pub add_wreg : ℕ → ℕ → CommandList → Option (ℕ × CommandList)
add_wreg addr d l = add_new (cmd_wreg addr d) l

unfoldable pub add_wblk : ℕ → List ℕ → CommandList → Option (ℕ × CommandList)
add_wblk addr block l = add_new (cmd_wblk addr block) l

unfoldable pub add_wblk_ext : ℕ → Option (List ℕ) → CommandList → Option (ℕ × CommandList)
add_wblk_ext addr block l = add_new (cmd_wblk_ext addr block) l

unfoldable pub add_labo : CommandList → Option (ℕ × CommandList)
add_labo l = add_new cmd_labo l

unfoldable pub add_attn : CommandList → Option (ℕ × CommandList)
add_attn l = add_new cmd_attn l

unfoldable pub add_init : ℕ → ℕ → CommandList → Option (ℕ × CommandList)
add_init addr d l = add_new (cmd_init addr d) l

-- `fList.back()`; there is none in an empty list, which is an exception.
abbrev pub on_last : (Command → Command) → List Command → Option (List Command)
on_last f [] = none
on_last f (c ∷ []) = some (f c ∷ [])
on_last f (c ∷ d ∷ cs) = do ds ← on_last f (d ∷ cs); some (c ∷ ds)

unfoldable pub set_last : (Command → Command) → CommandList → Option CommandList
set_last f l = do cs ← on_last f l.commands; some (record l { commands = cs })

-- `EnsureExpect()` and a call on what it returns.
unfoldable pub on_expect : (Expect → Expect) → Command → Command
unfolding ensure_expect
on_expect f c =
    let d = ensure_expect c in
    record d { expect = elim d.expect [ none ↦ none | some e ↦ some (f e) ] }

unfoldable pub set_last_expect_status : ℕ → ℕ → CommandList → Option CommandList
set_last_expect_status stat statmsk l = set_last (set_expect_status stat statmsk) l

unfoldable pub set_last_expect_data : ℕ → ℕ → CommandList → Option CommandList
set_last_expect_data d datamsk l = set_last (on_expect (Expect.set_data d datamsk)) l

unfoldable pub set_last_expect_done : ℕ → CommandList → Option CommandList
set_last_expect_done done l = set_last (on_expect (set_done done true)) l

-- Without a mask, and with one.
unfoldable pub set_last_expect_block : List ℕ → CommandList → Option CommandList
set_last_expect_block block l = set_last (on_expect (set_block block [])) l

unfoldable pub set_last_expect_block_masked : List ℕ → List ℕ → CommandList → Option CommandList
set_last_expect_block_masked block blockmsk l = set_last (on_expect (set_block block blockmsk)) l

unfoldable pub set_last_expect : Option Expect → CommandList → Option CommandList
set_last_expect e l = set_last (set_expect e) l

unfoldable pub clear : CommandList → CommandList
clear l = record { commands = []; labo_index = none }

unfoldable pub set_labo_index : Option ℕ → CommandList → CommandList
set_labo_index ind l = record l { labo_index = ind }

abbrev pub clear_labo_index : CommandList → CommandList
clear_labo_index l = record l { labo_index = none }

unfoldable pub labo_active : CommandList → Bool
labo_active l = elim l.labo_index [ none ↦ false | some i ↦ true ]

unfoldable pub at_index : ℕ → CommandList → Option Command
at_index ind l = get_elem? l.commands ind
