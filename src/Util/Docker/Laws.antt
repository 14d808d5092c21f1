-- ===== src/Util/Docker/Laws.antt =====
-- Where a project's directories are mounted.
use bitcoinx.Base.{Text, lit, [], ◌∷◌, ◌++◌, ◌≡◌, refl, arith, eq_text}
use bitcoinx.GoPath.Laws.{IsName, absolute, path_join-absolute}
use bitcoinx.Util.Docker.{container_dir}

-- A binary's directory in the container is hidden in /root under its name, if that makes a file name.
pub container_dir-name :
    (name : Text) → IsName (lit "." ++ name) → container_dir name ≡ lit "/root/." ++ name
unfolding container_dir absolute eq_text
container_dir-name name h =
    path_join-absolute [] (lit "root") ((lit "." ++ name) ∷ []) tt (root, (h, tt))
  where
    root : IsName (lit "root")
    root = record { no_slash = omega arith; nonempty = refl; not_dot = refl; not_dot_dot = refl }
