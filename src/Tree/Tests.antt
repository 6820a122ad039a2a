-- ===== src/Tree/Tests.antt =====
-- A search tree of numbers, with the theorems about it.
use Prim.Native.Nat.{compare}
use sipecho.Common.{ℕ, true, false, [], ◌∷◌, ◌≡◌, refl, arith}
use sipecho.Tree.{Tree, nil, node}
use sipecho.Tree.Spec.{IsOrder, IsSorted, inorder, insert, erase}
use sipecho.Tree.Search.{tsearch2}
use sipecho.Tree.Delete.{tdelete2}
use sipecho.Tree.Delete.Stack.{delete_from_aborts}
use sipecho.Tree.Balance.{IsBalanced}
use sipecho.Tree.Balance.Insert.{tsearch2-IsBalanced}
use sipecho.Tree.Balance.Delete.{tdelete2-IsBalanced}
use sipecho.Tree.Refine.{tsearch2-insert}
use sipecho.Tree.Delete.Keys.{tdelete2-erase}

pub compare-IsOrder : IsOrder compare
compare-IsOrder = record {
  flip = λ a b. ground arith;
  same = λ a b c e. ground arith;
  lt_trans = λ a b c e f. ground arith;
}

-- A black node with two red children, which an insertion below them splits.
abbrev three : Tree ℕ
three = node false (node true nil 1 nil) 2 (node true nil 5 nil)

three-IsSorted : IsSorted compare (inorder three)
three-IsSorted = ((refl, (refl, tt)), ((refl, tt), (tt, tt)))

inserted_7 : inorder (tsearch2 compare 7 three).1 ≡ 1 ∷ 2 ∷ 5 ∷ 7 ∷ []
unfolding tsearch2
inserted_7 = refl

deleted_2 : tdelete2 compare 2 three ≡ node false (node true nil 1 nil) 5 nil
unfolding tdelete2
deleted_2 = refl

tsearch2-insert_example : inorder (tsearch2 compare 7 three).1 ≡ insert compare 7 (inorder three)
tsearch2-insert_example = tsearch2-insert compare-IsOrder 7 three three-IsSorted

tdelete2-erase_example : inorder (tdelete2 compare 2 three) ≡ erase compare 2 (inorder three)
tdelete2-erase_example = tdelete2-erase compare-IsOrder 2 three three-IsSorted

three-IsBalanced : IsBalanced three
three-IsBalanced = (1, ((refl, refl, refl), (refl, refl, refl)))

tsearch2-IsBalanced_example : IsBalanced (tsearch2 compare 7 three).1
tsearch2-IsBalanced_example = tsearch2-IsBalanced compare 7 three three-IsBalanced

tdelete2-IsBalanced_example : IsBalanced (tdelete2 compare 2 three)
tdelete2-IsBalanced_example = tdelete2-IsBalanced compare 2 three three-IsBalanced

-- With room for one node, the search for a third stops.
third_aborts : delete_from_aborts 1 compare 7 0 three ≡ true
unfolding delete_from_aborts
third_aborts = refl
