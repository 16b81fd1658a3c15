-- ===== src/Runtime/Skill.antt =====
-- `suggestSkill` of internal/airuntime/orchestrator.go, over the words of a task's goal.
use mnemosyne_os.Base.{ℕ, String, Bool, false, ◌&&◌, ◌||◌, List, [], ◌∷◌, map, if◌then◌else◌, not}
use mnemosyne_os.Base.Text.{to_lower, codes, contains, trim_space}

-- `fold` is Unicode's lower case of the code points above ASCII.
module _ (fold : ℕ → ℕ) where
  unfoldable pub contains_word : String → String → Bool
  contains_word text word =
      contains (map (to_lower fold) (codes text)) (map (to_lower fold) (codes word))

  unfoldable pub contains_any : String → List String → Bool
  contains_any text [] = false
  contains_any text (v ∷ vs) = contains_word text v || contains_any text vs

  unfoldable pub references_file_object : String → Bool
  references_file_object text =
      contains_word text "file"
      || contains_word text "document"
      || contains_word text "doc"
      || contains_word text "readme"
      || contains_word text "note"
      || contains (codes text) (codes "文件")
      || contains (codes text) (codes "文档")
      || contains (codes text) (codes "笔记")

  unfoldable pub looks_like_create_directory : String → Bool
  looks_like_create_directory raw =
      let goal = trim_space raw in
      if contains (codes goal) (codes "文件")
      then false
      else if not (contains (codes goal) (codes "目录")) && not (contains (codes goal) (codes "文件夹"))
      then false
      else contains_any goal ("创建" ∷ "新建" ∷ "建立" ∷ [])

  unfoldable pub suggest_skill : String → String
  suggest_skill goal =
      if contains_any goal ("搜索" ∷ "查一下" ∷ "查找" ∷ "联网" ∷ "网页" ∷ "网站" ∷ "资料" ∷ [])
      then "web-search"
      else if contains_any goal ("github" ∷ "GitHub" ∷ [])
          && contains_any goal ("issue" ∷ "issues" ∷ "问题" ∷ "工单" ∷ [])
      then "github-issue-search"
      else if contains_any goal ("邮件" ∷ "邮箱" ∷ "收件箱" ∷ [])
      then "email-inbox"
      else if contains_word goal "email" || contains_word goal "mail" || contains_word goal "inbox"
      then "email-inbox"
      else if contains_word goal "github" && contains_word goal "issue"
      then "github-issue-search"
      else if contains_word goal "search" || contains_word goal "web"
      then "web-search"
      else if contains_word goal "shell" || contains_word goal "command" || contains_word goal "run"
      then "shell-command"
      else if contains_word goal "memory" || contains_word goal "recall"
      then "memory-consolidate"
      else if looks_like_create_directory goal
      then "shell-command"
      else if contains_word goal "read" && references_file_object goal
      then "file-read"
      else if references_file_object goal
          && (contains_word goal "edit"
              || contains_word goal "write"
              || contains_word goal "update"
              || contains_any goal ("创建" ∷ "新建" ∷ "生成" ∷ []))
      then "file-edit"
      else "task-plan"
