-- ===== src/ChainFs/Paths/Examples.antt =====
-- The theorems on directories at a concrete disk.
use pizda.Prelude.{◌≡◌, refl, arith, some, true, ◌∷◌}
use pizda.Pata.{Sector}
use pizda.ChainFs.{ChainFs}
use pizda.ChainFs.Map.{buffered}
use pizda.ChainFs.Paths.{slash, chainfs_mkdir, chainfs_chdir}
use pizda.ChainFs.Paths.Current.{chainfs_get_current_path}
use pizda.ChainFs.Paths.Located.{get_current_path-chainfs_mkdir}
use pizda.ChainFs.Files.Samples.{
  name, large, large-IsMounted, large-IsNew, root_used, second_unused,
}

get_current_path-chainfs_mkdir_example :
    (fs' fs'' : ChainFs) × (s : Sector) × (chainfs_mkdir name large ≡ some (fs', true))
    × (chainfs_chdir name fs' ≡ (fs'', true))
    × (chainfs_get_current_path 2 256 fs'' ≡ some (buffered fs'' s, some (slash ∷ name)))
get_current_path-chainfs_mkdir_example =
    get_current_path-chainfs_mkdir 1 1 2 256 name large large-IsMounted refl refl
      ((omega arith, omega arith), tt) (omega arith) (omega arith) large-IsNew
      (omega arith, omega arith) (omega arith) second_unused root_used (omega arith) (omega arith)
      (omega arith) (omega arith)
