-- ===== src/Pix/Wbpp/Examples.antt =====
-- Runs of src/pix/wbpp.cpp.
use star_base.Pix.Wbpp.{WbppPlan, default_profile, render, join_params, command_of}
use star_base.Pix.Wbpp.Shell.{between, words, is_plain, argv, words-command_of}
use star_base.Pix.Wbpp.Params.{split_commas, split-render}
use star_base.Common.{◌≡◌, refl, false, some, List, [], ◌∷◌, Bytes, codes, has_byte}

abbrev lights_plan : WbppPlan
unfolding render
lights_plan = render (codes "/tmp/job-1") (codes "light" ∷ []) default_profile false

abbrev odd_token : List Bytes
odd_token = codes "it's $HOME; rm" ∷ []

words-command_of_example :
    words between [] (command_of odd_token default_profile false)
    ≡ some (argv odd_token default_profile false)
unfolding is_plain
words-command_of_example = words-command_of odd_token default_profile false refl refl

split-render_example :
    split_commas
      (join_params (render (codes "/tmp/job-1") (codes "light" ∷ []) default_profile false).params)
    ≡ (render (codes "/tmp/job-1") (codes "light" ∷ []) default_profile false).params
unfolding render
split-render_example =
    split-render (codes "/tmp/job-1") (codes "light" ∷ []) default_profile false refl
      (unfold has_byte in refl) (unfold has_byte in refl) refl

command :
    lights_plan.command
    ≡ codes
        "/opt/PixInsight/bin/PixInsight.sh -n --automation-mode -r='/opt/PixInsight/src/scripts/BatchPreprocessing/WBPP.js,automationMode=true,dir=/tmp/job-1/light,groupingKeywordsEnabled=true,keywords=FILTER prepost,fitsCoordinateConvention=1' --force-exit"
unfolding render
command = refl
