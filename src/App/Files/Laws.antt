-- ===== src/App/Files/Laws.antt =====
-- Laws of paths and of the file system.
use tidyflow.Base.Text.{text_eq_refl, text_eq→eq}
use tidyflow.App.Files.{is_file, set_node, same_path, strip_prefix, FilePath, Node, Files}
use tidyflow.Base.{Option, none, is_some, ◌≡◌, true, some, [], ◌∷◌, ◌++◌, arith, refl}

pub same_path→eq : (p q : FilePath) → same_path p q ≡ true → p ≡ q
unfolding same_path
same_path→eq [] [] h = refl
same_path→eq [] (t ∷ q) h = cc
same_path→eq (s ∷ p) [] h = cc
same_path→eq (s ∷ p) (t ∷ q) h = ground (arith, text_eq→eq s t, same_path→eq p q)

pub same_path_refl : (p : FilePath) → same_path p p ≡ true
unfolding same_path
same_path_refl [] = refl
same_path_refl (s ∷ p) = ground (arith, text_eq_refl s, same_path_refl p)

pub strip_prefix_self : (p : FilePath) → strip_prefix p p ≡ some []
unfolding strip_prefix
strip_prefix_self [] = refl
strip_prefix_self (s ∷ p) = ground (arith, text_eq_refl s, strip_prefix_self p)

pub strip_prefix-eq-some :
    (root p rest : FilePath) → strip_prefix root p ≡ some rest → p ≡ root ++ rest
unfolding strip_prefix
strip_prefix-eq-some [] p rest h = ground arith
strip_prefix-eq-some (r ∷ root) [] rest h = cc
strip_prefix-eq-some (r ∷ root) (s ∷ p) rest h =
    ground (arith, text_eq→eq r s, strip_prefix-eq-some root p rest)

pub set_node_self : (p : FilePath) (n : Option Node) (fs : Files) → set_node p n fs p ≡ n
unfolding set_node
set_node_self p n fs = ground (arith, same_path_refl p)

-- A file exists.
pub is_file-is_some : (n : Option Node) → is_file n ≡ true → is_some n ≡ true
unfolding is_file
is_file-is_some none h = h
is_file-is_some (some d) h = refl
