-- ===== src/Trust/Load.antt =====
-- reloadLocked and writeLocked of trust/store.go.
use malt.Base.{not, none, some, [], ◌∷◌, nat_eq, ◌==◌, ok, ◌>>=◌, ◌>>◌, refuse_if}
use malt.Base.Cids.{CidCodec}
use malt.Trust.Types.{Roots, Document, Outcome, trust_store_version, bad_version}
use malt.Trust.Heads.{normalize_root_state}

unfoldable pub save : Roots → Document
save roots = record { version = trust_store_version; roots = some roots }

module _ ⦃cids : CidCodec⦄ where
  unfoldable pub load_roots : Roots → Outcome Roots
  load_roots [] = ok []
  load_roots ((alias, raw) ∷ rest) = do
    value ← normalize_root_state alias raw
    loaded ← load_roots rest
    ok ((alias, value) ∷ loaded)

  -- a file without roots is a file with none
  unfoldable pub load : Document → Outcome Roots
  unfolding load_roots
  load d = do
    refuse_if (not (d.version == trust_store_version)) bad_version
    elim d.roots [ none ↦ ok [] | some roots ↦ load_roots roots ]
