-- ===== src/Examples/Releases.antt =====
-- The theorems of the releases page at one release.
use grouproxy.Base.{◌≡◌, refl, true, none, some, [], ◌∷◌, map, str_eq}
use grouproxy.Api.Entities.Releases.{Release}
use grouproxy.Releases.{StageItem, pipeline, release_stages}
use grouproxy.Releases.Pipeline.{IsOrdered, pipeline-IsOrdered}
use grouproxy.Releases.Page.{
  ReleasesPage, first_releases_page, selected_release, is_given, Reach, start, next, open_release,
  release_opened, answered,
}
use grouproxy.Releases.Selection.{selected_release-requested}

abbrev release : Release
release = record {
  release_id = "r1";
  site_id = "s1";
  node_ids = "n1" ∷ [];
  desired_release_id = "r1";
  previous_release_id = none;
  task_id = none;
  status = "running";
  stage = "applying";
  progress = 50;
  error = "";
  rollback_reason = "";
  started_at = none;
  finished_at = none;
  created_at = "";
  subscription_name = "feed";
  subscription_source_id = "";
  change_categories = none;
}

pipeline-IsOrdered_example :
    (map StageItem.stage (pipeline release) ≡ release_stages)
    × IsOrdered (str_eq release.status "succeeded") (pipeline release)
pipeline-IsOrdered_example = pipeline-IsOrdered release

abbrev asked_page : ReleasesPage
asked_page = open_release "r1" none (first_releases_page none none none)

abbrev shown_page : ReleasesPage
shown_page = record asked_page { requested = some release }

asked-here : asked_page.release_id ≡ some "r1"
unfolding open_release
asked-here = refl

shown-Reach : Reach shown_page
shown-Reach =
    next (next (start none) (release_opened (first_releases_page none none none) "r1" none tt))
      (answered asked_page release asked-here)

shown-given : is_given shown_page.release_id ≡ true
unfolding open_release
shown-given = refl

shown-selected : selected_release [] shown_page ≡ some release
unfolding selected_release open_release
shown-selected = refl

selected_release-requested_example : shown_page.release_id ≡ some release.release_id
selected_release-requested_example =
    selected_release-requested [] release shown-Reach shown-given shown-selected
