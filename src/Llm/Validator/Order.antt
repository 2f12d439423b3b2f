-- ===== src/Llm/Validator/Order.antt =====
-- The order in which the issues are repaired: the last message first.
use gola.Prelude.{ℕ, ◌<◌, ◌≡◌, refl, ap, ◌∙◌, List, [], ◌∷◌, ◌++◌, arith}
use gola.Llm.Validator.{ValidationIssue, insert_issue, sort_issues}

-- Every issue is about a message after the first `i + 1`.
abbrev pub Above : ℕ → List ValidationIssue → Type 0
Above i [] = Unit {0}
Above i (x ∷ xs) = (i < x.message_index) × Above i xs

pub Above-append :
    (i : ℕ) (xs ys : List ValidationIssue) → Above i xs → Above i ys → Above i (xs ++ ys)
Above-append i [] ys h k = k
Above-append i (x ∷ xs) ys h k = (h.0, Above-append i xs ys h.1 k)

Above-insert_issue :
    (i : ℕ) (x : ValidationIssue) (ys : List ValidationIssue)
    → i < x.message_index
    → Above i ys
    → Above i (insert_issue x ys)
unfolding insert_issue
Above-insert_issue i x [] h k = (h, tt)
Above-insert_issue i x (y ∷ ys) h k = ground (arith, Above-insert_issue i x ys h k.1)

Above-sort_issues : (i : ℕ) (xs : List ValidationIssue) → Above i xs → Above i (sort_issues xs)
unfolding sort_issues
Above-sort_issues i [] h = tt
Above-sort_issues i (x ∷ xs) h =
    Above-insert_issue i x (sort_issues xs) h.0 (Above-sort_issues i xs h.1)

insert_issue-last :
    (x : ValidationIssue) (ys : List ValidationIssue)
    → Above x.message_index ys
    → insert_issue x ys ≡ ys ++ x ∷ []
unfolding insert_issue
insert_issue-last x [] h = refl
insert_issue-last x (y ∷ ys) h = ground (arith, insert_issue-last x ys h.1)

insert_issue-append :
    (x y : ValidationIssue) (ys : List ValidationIssue)
    → x.message_index < y.message_index
    → insert_issue y (ys ++ x ∷ []) ≡ insert_issue y ys ++ x ∷ []
unfolding insert_issue
insert_issue-append x y [] h = ground arith
insert_issue-append x y (z ∷ ys) h = ground (arith, insert_issue-append x y ys h)

-- An issue about an earlier message than all the others is repaired last, wherever it stood.
pub sort_issues-append :
    (x : ValidationIssue) (xs ys : List ValidationIssue)
    → Above x.message_index xs
    → Above x.message_index ys
    → sort_issues (xs ++ x ∷ ys) ≡ sort_issues (xs ++ ys) ++ x ∷ []
unfolding sort_issues
sort_issues-append x [] ys h k =
    insert_issue-last x (sort_issues ys) (Above-sort_issues x.message_index ys k)
sort_issues-append x (z ∷ xs) ys h k =
    ap (insert_issue z) (sort_issues-append x xs ys h.1 k)
    ∙ insert_issue-append x z (sort_issues (xs ++ ys)) h.0
