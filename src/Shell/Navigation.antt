-- ===== src/Shell/Navigation.antt =====
-- The label in the top bar is that of the navigation entry that leads to the page.
use grouproxy.Base.{◌≡◌, refl, All}
use grouproxy.Shell.{NavigationItem, navigation, page_label}

-- Every entry of the navigation leads to a page with the entry's label.
pub page_label-navigation :
    All
      (λ group. All (λ (item : NavigationItem). page_label item.href ≡ item.label) group.items)
      navigation
unfolding page_label
page_label-navigation = assumption refl
