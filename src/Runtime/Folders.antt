-- ===== src/Runtime/Folders.antt =====
-- `looksLikeCreateDirectoryRequest`: one of the two words for a folder is never recognised.
use mnemosyne_os.Base.{ℕ, String, ◌≡◌, true, false, arith}
use mnemosyne_os.Base.Text.{codes, contains, trim_space}
use mnemosyne_os.Base.Text.Search.{contains-append}
use mnemosyne_os.Runtime.Skill.{looks_like_create_directory}

-- A goal that names a folder by "文件夹" names a file by "文件", and is refused for that: the test
-- for the folder is never reached with success.
pub folder_is_not_recognised :
    (fold : ℕ → ℕ) (goal : String)
    → contains (codes (trim_space goal)) (codes "文件夹") ≡ true
    → looks_like_create_directory fold goal ≡ false
unfolding looks_like_create_directory
folder_is_not_recognised fold goal h =
    ground (arith, contains-append (codes (trim_space goal)) (codes "文件") (codes "夹") h)
