-- ===== src/Kernel/Path/Tests.antt =====
-- Path names of kernel/fs.c at concrete strings.
use sleep_e_pingpong.Base.{ℕ, ◌+◌, ◌≡◌, refl, true, false, List, [], ◌∷◌, some, count}
use sleep_e_pingpong.Kernel.Path.{
  Text, skip_slashes, after_elem, elem_of, take_elem, skipelem, Dirs, namex_step, namex_round,
  namex_loop, namex,
}
use sleep_e_pingpong.Kernel.Path.Elements.{Spells, nothing, gap, name}
use sleep_e_pingpong.Kernel.Path.Resolve.{resolve, given, namex-resolve}

-- "/a//b"
abbrev path : Text
path = 47 ∷ 97 ∷ 47 ∷ 47 ∷ 98 ∷ []

abbrev names : List Text
names = (97 ∷ []) ∷ (98 ∷ []) ∷ []

path-Spells : Spells path names
path-Spells =
    gap 47 refl
      (name 97 [] refl tt refl (gap 47 refl (gap 47 refl (name 98 [] refl tt tt nothing))))

-- Every directory has every name, in the next inode.
abbrev dirs : Dirs
dirs = record { is_dir = λ ip. true; lookup = λ ip n. some (ip + 1) }

skipelem_first : skipelem path ≡ some (98 ∷ [], 97 ∷ [])
unfolding skipelem skip_slashes take_elem after_elem elem_of
skipelem_first = refl

namex_parent : namex dirs true 1 9 path [] ≡ (some (2, 98 ∷ []), 2 ∷ [])
unfolding namex namex_loop namex_round namex_step skipelem skip_slashes take_elem after_elem elem_of
namex_parent = refl

namex-resolve_example :
    ((namex dirs false 1 9 path []).0 ≡ resolve dirs false names 1)
    × ((j : ℕ)
        → count j (namex dirs false 1 9 path []).1
          ≡ count j [] + given j (namex dirs false 1 9 path []).0)
namex-resolve_example = namex-resolve dirs false 1 9 path names [] path-Spells
